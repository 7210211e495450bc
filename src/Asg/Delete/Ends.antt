-- ===== src/Asg/Delete/Ends.antt =====
-- Termination of a deletion.
use community_aws.Base.{
  is_empty, ℕ, zero, suc, ◌+◌, ◌*◌, ◌≤◌, ◌<◌, String, ◌≡◌, refl, ap, ◌∙◌, ◌≢◌, inl, inr, Bool, true,
  false, ◌&&◌, not, Option, none, some, List, [], ◌∷◌, arith, leb, Bool-cases, string_eq, nat_eq,
  bool_eq, option_eq, Error, Result, ok, Result-cases,
}
use mathlib.Core.Path.{subst}
use community_aws.Base.Run.{Run, done, endless, return_, raise, done_inj}
use community_aws.Base.Rules.{EndsIn, ends_in, of_if}
use community_aws.Asg.Properties.{Group}
use community_aws.Asg.Wait.{Service, IsClock}
use community_aws.Asg.Cloud.{Cloud, Update, change, time, sleep_10, update_asg}
use community_aws.Asg.Balancers.{in_time}
use community_aws.Asg.Delete.{
  DeleteParams, Deleting, no_sizes, drain_loop, gone_loop, delete_asg, del_notification_config,
  drain, delete_from, drop_notification, delete_listed, delete_autoscaling_group, still_there,
}
use community_aws.Asg.Delete.Laws.{delete-IsGone}
use community_aws.Asg.Balancers.Laws.{change-Ends}
use community_aws.Base.Rules.{Ends, ends}

-- A call never turns the clock back.
pub record IsForward (s : Service) (c : Cloud s) (d : Deleting s) : Type 0 where
  pub update_later :
      (u : Update) (w w' : s.World) → c.update_auto_scaling_group u w ≡ ok w' → s.now w ≤ s.now w'
  pub delete_later :
      (name : String) (force : Bool) (w w' : s.World)
      → d.delete_auto_scaling_group name force w ≡ ok w'
      → s.now w ≤ s.now w'

module _ (s : Service) (clock : IsClock s) where
  -- the time is not before the start
  abbrev Since : ℕ → s.World → Type 0
  Since start w = start ≤ s.now w

  change-EndsIn :
      (call : s.World → Result s.World) (start : ℕ)
      → ((w w' : s.World) → call w ≡ ok w' → s.now w ≤ s.now w')
      → EndsIn (Since start) (change s call)
  change-EndsIn call start later w i = elim (Result-cases (call w)) [
    | inl (v, e) ↦
        rw (e, change)
          (
            (λ h. cc),
            λ w' u h.
                let called : call w ≡ ok w' = e ∙ ap ok (done_inj h).1 in
                omega (arith, i, later w w' called),
          )
    | inr (x, e) ↦ rw (e, change) ((λ h. cc), λ w' u h. cc)
  ]

  in_time-EndsIn :
      (late : Error) (deadline start : ℕ) → EndsIn (Since start) (in_time s late deadline)
  unfolding in_time time
  in_time-EndsIn late deadline start =
      (ends_in (Since start)).of_bind _ _ ((ends_in (Since start)).of_look s.now) (λ t.
        of_if (ends_in (Since start)) (leb deadline t) (raise late) (return_ tt)
          ((ends_in (Since start)).of_raise late) ((ends_in (Since start)).of_return tt))

  module _ (start deadline : ℕ) where
    -- the run ends from one state on, not before the start
    abbrev EndsFrom : {A : Type 0} → Run s.World A → s.World → Type 0
    EndsFrom {A} m w =
        (m w ≢ endless) × ((w' : s.World) (a : A) → m w ≡ done (a, w') → Since start w')

    gone_loop-EndsFrom :
        (fuel : ℕ) (w : s.World)
        → deadline < 5 * fuel + s.now w
        → Since start w
        → EndsFrom (gone_loop s (suc fuel) deadline) w
    unfolding gone_loop
    gone_loop-EndsFrom zero w e i =
        elim (Bool-cases (not (is_empty (s.describe w)) && leb (s.now w) deadline)) [
          | inr stop ↦ rw stop ((λ h. cc), λ w' u h. subst (Since start) (done_inj h).1 i)
          | inl more ↦ absurd (ground (arith, more))
        ]
    gone_loop-EndsFrom (suc fuel) w e i =
        elim (Bool-cases (not (is_empty (s.describe w)) && leb (s.now w) deadline)) [
          | inr stop ↦ rw stop ((λ h. cc), λ w' u h. subst (Since start) (done_inj h).1 i)
          | inl more ↦ rw more (
              gone_loop-EndsFrom fuel (s.sleep 5 w) (omega (arith, e, clock.sleep_lasts 5 w))
                (omega (arith, i, clock.sleep_lasts 5 w)))
        ]

    drain_loop-EndsFrom :
        (fuel : ℕ) (instances : Bool) (w : s.World)
        → deadline < 10 * fuel + s.now w
        → Since start w
        → EndsFrom (drain_loop s (suc fuel) deadline instances) w
    unfolding drain_loop time sleep_10
    drain_loop-EndsFrom zero instances w e i =
        elim (Bool-cases (instances && leb (s.now w) deadline)) [
          | inr stop ↦ rw stop ((λ h. cc), λ w' u h. subst (Since start) (done_inj h).1 i)
          | inl more ↦ absurd (ground (arith, more))
        ]
    drain_loop-EndsFrom (suc fuel) instances w e i =
        elim (Bool-cases (instances && leb (s.now w) deadline)) [
          | inr stop ↦ rw stop ((λ h. cc), λ w' u h. subst (Since start) (done_inj h).1 i)
          | inl more ↦ rw more (
              drain_loop-EndsFrom fuel (still_there (s.describe w) instances) (s.sleep 10 w)
                (omega (arith, e, clock.sleep_lasts 10 w))
                (omega (arith, i, clock.sleep_lasts 10 w)))
        ]

  module _ (c : Cloud s) (d : Deleting s) (forward : IsForward s c d) (fuel : ℕ) (p : DeleteParams)
      (enough : p.wait_timeout < 5 * fuel) where
    module _ (start : ℕ) where
      within : (w : s.World) → Since start w → start + p.wait_timeout < 5 * fuel + s.now w
      within w i = omega (arith, enough, i)

      update-EndsIn : EndsIn (Since start) (update_asg s c (no_sizes p.name))
      unfolding update_asg
      update-EndsIn = change-EndsIn _ start (forward.update_later (no_sizes p.name))

      delete_asg-EndsIn :
          (force : Bool) → EndsIn (Since start) (delete_asg s c d (suc fuel) p.name force)
      unfolding delete_asg
      delete_asg-EndsIn force = change-EndsIn _ start (forward.delete_later p.name force)

      drain-EndsIn : EndsIn (Since start) (drain s c d (suc fuel) p.name (start + p.wait_timeout))
      unfolding drain
      drain-EndsIn =
          (ends_in (Since start)).of_bind _ _
            ((ends_in (Since start)).of_bind _ _
              ((ends_in (Since start)).of_bind _ _ update-EndsIn (λ u w i.
                drain_loop-EndsFrom start (start + p.wait_timeout) fuel true w
                  (omega (arith, within w i)) i))
              (λ u. in_time-EndsIn _ (start + p.wait_timeout) start))
            (λ u. delete_asg-EndsIn false)

      delete_from-EndsIn :
          EndsIn (Since start) (delete_from s c d (suc fuel) p (start + p.wait_timeout))
      unfolding delete_from
      delete_from-EndsIn =
          (ends_in (Since start)).of_bind _ _
            (of_if (ends_in (Since start)) p.wait_for_instances _ _ drain-EndsIn
              (delete_asg-EndsIn true))
            (λ u.
              (ends_in (Since start)).of_bind _ _
                (λ w i. gone_loop-EndsFrom start (start + p.wait_timeout) fuel w (within w i) i)
                (λ u.
                  (ends_in (Since start)).of_bind _ _
                    (in_time-EndsIn _ (start + p.wait_timeout) start)
                    (λ u. (ends_in (Since start)).of_return true)))

    delete_listed-Ends : (l : List Group) → Ends (delete_listed s c d (suc fuel) p l)
    unfolding time
    delete_listed-Ends [] w = (ends s.World).of_return false w
    delete_listed-Ends (g ∷ l) w = (delete_from-EndsIn (s.now w) w (omega arith)).0

    drop_notification-Ends :
        (topic : Option String) → Ends (drop_notification s c d (suc fuel) p topic)
    unfolding del_notification_config
    drop_notification-Ends none = (ends s.World).of_return tt
    drop_notification-Ends (some String.[]) = (ends s.World).of_return tt
    drop_notification-Ends (some (String.◌∷◌ x t)) = change-Ends s _

    -- If a call of update_asg or of delete_asg never turns the clock back, n seconds of sleep take at
    -- least n seconds, and `wait_timeout` is below 5 * fuel, then `delete_autoscaling_group` ends
    -- within suc fuel rounds of its loops, and where it ends with a result the service describes no
    -- group.
    pub delete-ends :
        (w : s.World)
        → (delete_autoscaling_group s c d (suc fuel) p w ≢ endless)
          × ((w' : s.World) (b : Bool)
              → delete_autoscaling_group s c d (suc fuel) p w ≡ done (b, w')
              → s.describe w' ≡ [])
    unfolding delete_autoscaling_group
    delete-ends w = (
      (ends s.World).of_bind _ _ (drop_notification-Ends p.notification_topic)
          (λ u. (ends s.World).of_bind _ _ ((ends s.World).of_look s.describe) delete_listed-Ends)
          w,
      λ w' b h. no_groups (s.describe w') (delete-IsGone s c d (suc fuel) p w w' b h),
    )
      where
        no_groups : (l : List Group) → is_empty l ≡ true → l ≡ []
        no_groups [] h = refl
        no_groups (g ∷ l) h = cc
