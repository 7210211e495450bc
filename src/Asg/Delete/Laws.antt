-- ===== src/Asg/Delete/Laws.antt =====
-- What holds behind a deletion that ends with a result.
use community_aws.Base.{
  is_empty, ℕ, zero, suc, ◌+◌, ◌<◌, ◌≡◌, refl, sym, ◌∙◌, ◌⊎◌, inl, inr, Bool, true, false, ◌&&◌,
  not, List, [], ◌∷◌, arith, leb, if◌then◌else◌, Bool-cases, string_eq, nat_eq, bool_eq, option_eq,
  Error,
}
use mathlib.Core.Path.{subst}
use community_aws.Base.Run.{Run, done, return_, ◌>>◌, bind-eq-done, done_inj}
use community_aws.Base.Rules.{Ensures, Ensures-bind}
use community_aws.Asg.Properties.{Group}
use community_aws.Asg.Wait.{Service}
use community_aws.Asg.Cloud.{Cloud, time}
use community_aws.Asg.Balancers.{in_time}
use community_aws.Asg.Delete.{
  DeleteParams, Deleting, delete_late, gone_loop, delete_asg, drain, delete_from, drop_notification,
  delete_listed, delete_autoscaling_group,
}

module _ (s : Service) where
  -- the service describes no group
  abbrev pub IsGone : s.World → Type 0
  IsGone w = is_empty (s.describe w) ≡ true

  gone_loop-done :
      (fuel deadline : ℕ) (w w' : s.World) (u : Unit {0})
      → gone_loop s fuel deadline w ≡ done (u, w')
      → IsGone w' ⊎ (deadline < s.now w')
  unfolding gone_loop
  gone_loop-done zero deadline w w' u h = cc
  gone_loop-done (suc fuel) deadline w w' u h =
      elim (Bool-cases (not (is_empty (s.describe w)) && leb (s.now w) deadline)) [
        | inl more ↦ gone_loop-done fuel deadline (s.sleep 5 w) w' u (rw more at h)
        | inr stop ↦
            subst (λ x. IsGone x ⊎ (deadline < s.now x)) (done_inj (rw stop at h)).1
              (ended (is_empty (s.describe w)) stop)
      ]
    where
      ended :
          (b : Bool) → (not b && leb (s.now w) deadline) ≡ false → (b ≡ true) ⊎ (deadline < s.now w)
      ended true e = inl refl
      ended false e = inr (ground (arith, e))

  in_time-done :
      (late : Error) (deadline : ℕ) (w w' : s.World) (u : Unit {0})
      → in_time s late deadline w ≡ done (u, w')
      → (w' ≡ w) × (s.now w < deadline)
  unfolding in_time time
  in_time-done late deadline w w' u h = elim (Bool-cases (leb deadline (s.now w))) [
    | inl over ↦ cc (rw over at h)
    | inr early ↦ (sym (done_inj (rw early at h)).1, ground (arith, early))
  ]

  module _ (c : Cloud s) (d : Deleting s) (fuel : ℕ) (p : DeleteParams) where
    delete_from-IsGone : (deadline : ℕ) → Ensures IsGone (delete_from s c d fuel p deadline)
    unfolding delete_from
    delete_from-IsGone deadline =
        Ensures-bind IsGone
          (if p.wait_for_instances
            then drain s c d fuel p.name deadline
            else delete_asg s c d fuel p.name true)
          (λ _. gone_loop s fuel deadline >> timed_result)
          (λ _ w w' b h.
            let (x, v, looped, next) =
              bind-eq-done (gone_loop s fuel deadline) (λ _. timed_result) w w' b h in
            let (y, v', timed, last) =
              bind-eq-done (in_time s delete_late deadline) (λ _. return_ true) v w' b next in
            let (same, early) = in_time-done delete_late deadline v v' y timed in
            subst IsGone (sym same ∙ (done_inj last).1)
              (elim (gone_loop-done fuel deadline w v x looped) [
                | inl gone ↦ gone
                | inr over ↦ absurd (omega (arith, early, over))
              ]))
      where
        timed_result : Run s.World Bool
        timed_result = in_time s delete_late deadline >> return_ true

    delete_listed-IsGone :
        (l : List Group) (w w' : s.World) (b : Bool)
        → s.describe w ≡ l
        → delete_listed s c d fuel p l w ≡ done (b, w')
        → IsGone w'
    unfolding time
    delete_listed-IsGone [] w w' b listed h = subst IsGone (done_inj h).1 (rw listed refl)
    delete_listed-IsGone (g ∷ l) w w' b listed h =
        delete_from-IsGone (s.now w + p.wait_timeout) w w' b h

    -- A deletion that ends with a result leaves no group that the service describes.
    pub delete-IsGone : Ensures IsGone (delete_autoscaling_group s c d fuel p)
    unfolding delete_autoscaling_group
    delete-IsGone w w' b h =
        let (u, v, dropped, next) =
          bind-eq-done (drop_notification s c d fuel p p.notification_topic) _ w w' b h in
        delete_listed-IsGone (s.describe v) v w' b refl next
