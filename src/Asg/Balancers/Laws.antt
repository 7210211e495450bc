-- ===== src/Asg/Balancers/Laws.antt =====
-- The waits for load balancers and target groups end.
use community_aws.Base.{
  ℕ, zero, suc, ◌+◌, ◌*◌, ◌≤◌, String, ◌≡◌, ◌≢◌, inl, inr, ◌&&◌, Option, List, [], ◌∷◌, arith, ltb,
  leb, Bool-cases, string_eq, nat_eq, bool_eq, option_eq, Error, Result, Result-cases,
}
use community_aws.Base.Int.{ℤ}
use community_aws.Base.Run.{Run, endless, return_, raise, ◌>>=◌, ◌>>◌, Outcome-cases}
use community_aws.Base.Rules.{Keeps, keeps, Ends, ends, of_if, of_lift}
use community_aws.Asg.Wait.{Service, IsClock}
use community_aws.Asg.Cloud.{
  Cloud, change, ask, describe_group, time, sleep_10, deregister_lb_instances,
}
use community_aws.Asg.Balancers.{
  checks_elb, in_time, is_fewer, healthy_loop, await_healthy, deregister_all, still_registered,
  dreg_loop, dreg_late, dreg_from, elb_dreg, elb_healthy, tg_healthy, wait_for_elb,
  wait_for_target_group,
}

module _ (s : Service) where
  ask-Ends : {A : Type 0} (call : s.World → Result A) → Ends (ask s call)
  ask-Ends call = (ends s.World).of_bind _ _ ((ends s.World).of_look call) (of_lift (ends s.World))

  ask-Keeps : {A : Type 0} (call : s.World → Result A) → Keeps (ask s call)
  ask-Keeps call =
      (keeps s.World).of_bind _ _ ((keeps s.World).of_look call) (of_lift (keeps s.World))

  pub change-Ends : (call : s.World → Result s.World) → Ends (change s call)
  change-Ends call w h = elim (Result-cases (call w)) [
    | inl (v, e) ↦ cc (rw (e, change) at h)
    | inr (x, e) ↦ cc (rw (e, change) at h)
  ]

  pub describe_group-Ends : Ends (describe_group s)
  unfolding describe_group
  describe_group-Ends = ask-Ends _

  describe_group-Keeps : Keeps (describe_group s)
  unfolding describe_group
  describe_group-Keeps = ask-Keeps _

  in_time-Ends : (late : Error) (deadline : ℕ) → Ends (in_time s late deadline)
  unfolding in_time time
  in_time-Ends late deadline = (ends s.World).of_bind _ _ ((ends s.World).of_look s.now) (λ t.
      of_if (ends s.World) (leb deadline t) (raise late) (return_ tt) ((ends s.World).of_raise late)
        ((ends s.World).of_return tt))

  module _ (clock : IsClock s) where
    healthy_loop-total :
        (fuel deadline : ℕ) (min_size : ℤ) (count : Run s.World (Option ℕ)) (o : Option ℕ)
        (w : s.World)
        → Keeps count
        → Ends count
        → deadline ≤ 10 * fuel + s.now w
        → healthy_loop s (suc fuel) deadline min_size count o w ≢ endless
    unfolding healthy_loop time sleep_10
    healthy_loop-total zero deadline min_size count n w k e h =
        elim (Result-cases (is_fewer s n min_size)) [
          | inr (x, failed) ↦ rw (failed, ◌>>=◌) (λ r. cc)
          | inl (fewer, compared) ↦ elim (Bool-cases (fewer && ltb (s.now w) deadline)) [
            | inr stop ↦ rw (compared, ◌>>=◌, stop) (λ r. cc)
            | inl more ↦ absurd (ground (arith, more))
          ]
        ]
    healthy_loop-total (suc fuel) deadline min_size count n w k e h =
        elim (Result-cases (is_fewer s n min_size)) [
          | inr (x, failed) ↦ rw (failed, ◌>>=◌) (λ r. cc)
          | inl (fewer, compared) ↦ elim (Bool-cases (fewer && ltb (s.now w) deadline)) [
            | inr stop ↦ rw (compared, ◌>>=◌, stop) (λ r. cc)
            | inl more ↦ elim (Outcome-cases (count w)) [
              | inr (inr never) ↦ absurd (e w never)
              | inr (inl (x, failed)) ↦ rw (compared, more, failed, ◌>>=◌) (λ r. cc)
              | inl (n', v, counted) ↦
                  let same : v ≡ w = k w v n' counted in
                  let later : deadline ≤ 10 * fuel + s.now (s.sleep 10 v) =
                    rw same (omega (arith, clock.sleep_lasts 10 w)) in
                  rw (compared, more, counted, ◌>>=◌)
                    (healthy_loop-total fuel deadline min_size count n' (s.sleep 10 v) k e later)
            ]
          ]
        ]

    await_healthy-Ends :
        (fuel wait_timeout : ℕ) (min_size : ℤ) (count : Run s.World (Option ℕ))
        → wait_timeout ≤ 10 * fuel
        → Keeps count
        → Ends count
        → Ends (await_healthy s (suc fuel) wait_timeout min_size count)
    unfolding await_healthy time
    await_healthy-Ends fuel wait_timeout min_size count enough k e w =
        elim (Outcome-cases (count w)) [
          | inr (inr never) ↦ absurd (e w never)
          | inr (inl (x, failed)) ↦ rw (failed, ◌>>=◌) (λ r. cc)
          | inl (n, v, counted) ↦
              let same : v ≡ w = k w v n counted in
              let d = s.now w + wait_timeout in
              let looped =
                healthy_loop-total fuel d min_size count n v k e
                  (rw same (omega (arith, enough))) in
              elim (Outcome-cases (healthy_loop s (suc fuel) d min_size count n v)) [
                | inr (inr never) ↦ absurd (looped never)
                | inr (inl (x, failed)) ↦ rw (counted, ◌>>=◌, failed) (λ r. cc)
                | inl (u, v', ended) ↦ rw (counted, ◌>>=◌, ended) (in_time-Ends _ d v')
              ]
        ]

    module _ (c : Cloud s) where
      deregister_all-Ends : (i : String) (lbs : List String) → Ends (deregister_all s c i lbs)
      unfolding deregister_all deregister_lb_instances
      deregister_all-Ends i [] = (ends s.World).of_return tt
      deregister_all-Ends i (lb ∷ lbs) =
          (ends s.World).of_bind _ _ (change-Ends _) (λ u. deregister_all-Ends i lbs)

      still_registered-Ends : (i : String) (lbs : List String) → Ends (still_registered s c i lbs)
      unfolding still_registered
      still_registered-Ends i [] = (ends s.World).of_return 0
      still_registered-Ends i (lb ∷ lbs) = (ends s.World).of_bind _ _ (ask-Ends _) (λ states.
          (ends s.World).of_bind _ _ (still_registered-Ends i lbs)
            (λ n. (ends s.World).of_return _))

      still_registered-Keeps : (i : String) (lbs : List String) → Keeps (still_registered s c i lbs)
      unfolding still_registered
      still_registered-Keeps i [] = (keeps s.World).of_return 0
      still_registered-Keeps i (lb ∷ lbs) = (keeps s.World).of_bind _ _ (ask-Keeps _) (λ states.
          (keeps s.World).of_bind _ _ (still_registered-Keeps i lbs)
            (λ n. (keeps s.World).of_return _))

      dreg_loop-total :
          (fuel deadline : ℕ) (i : String) (lbs : List String) (count : ℕ) (w : s.World)
          → deadline ≤ 10 * fuel + s.now w
          → dreg_loop s c (suc fuel) deadline i lbs count w ≢ endless
      unfolding dreg_loop time sleep_10
      dreg_loop-total zero deadline i lbs count w h =
          elim (Bool-cases (ltb (s.now w) deadline && ltb 0 count)) [
            | inr stop ↦ rw stop (λ r. cc)
            | inl more ↦ absurd (ground (arith, more))
          ]
      dreg_loop-total (suc fuel) deadline i lbs count w h =
          elim (Bool-cases (ltb (s.now w) deadline && ltb 0 count)) [
            | inr stop ↦ rw stop (λ r. cc)
            | inl more ↦ elim (Outcome-cases (still_registered s c i lbs w)) [
              | inr (inr never) ↦ absurd (still_registered-Ends i lbs w never)
              | inr (inl (x, failed)) ↦ rw (more, failed, ◌>>=◌) (λ r. cc)
              | inl (n, v, counted) ↦
                  let same : v ≡ w = still_registered-Keeps i lbs w v n counted in
                  let later : deadline ≤ 10 * fuel + s.now (s.sleep 10 v) =
                    rw same (omega (arith, clock.sleep_lasts 10 w)) in
                  rw (more, counted, ◌>>=◌)
                    (dreg_loop-total fuel deadline i lbs n (s.sleep 10 v) later)
            ]
          ]

      module _ (fuel wait_timeout : ℕ) (enough : wait_timeout ≤ 10 * fuel) where
        dreg_from-Ends :
            (i : String) (lbs : List String) → Ends (dreg_from s c (suc fuel) wait_timeout i lbs)
        unfolding dreg_from time
        dreg_from-Ends i lbs =
            (ends s.World).of_bind _ _ (deregister_all-Ends i lbs)
              (λ u w. timed w (s.now w + wait_timeout) (omega (arith, enough)))
          where
            timed :
                (w : s.World) (d : ℕ)
                → d ≤ 10 * fuel + s.now w
                → (dreg_loop s c (suc fuel) d i lbs 1 >> in_time s dreg_late d) w ≢ endless
            timed w d h = elim (Outcome-cases (dreg_loop s c (suc fuel) d i lbs 1 w)) [
              | inr (inr never) ↦ absurd (dreg_loop-total fuel d i lbs 1 w h never)
              | inr (inl (x, failed)) ↦ rw (failed, ◌>>=◌) (λ r. cc)
              | inl (v, w', ended) ↦ rw (ended, ◌>>=◌) (in_time-Ends dreg_late d w')
            ]

        pub elb_dreg-Ends : (i : String) → Ends (elb_dreg s c (suc fuel) wait_timeout i)
        unfolding elb_dreg
        elb_dreg-Ends i = (ends s.World).of_bind _ _ describe_group-Ends (λ g.
            of_if (ends s.World) (checks_elb g) _ _ (dreg_from-Ends i _)
              ((ends s.World).of_return tt))

        elb_healthy-Ends : Ends (elb_healthy s c)
        unfolding elb_healthy
        elb_healthy-Ends = (ends s.World).of_bind _ _ describe_group-Ends (λ g. ask-Ends _)

        elb_healthy-Keeps : Keeps (elb_healthy s c)
        unfolding elb_healthy
        elb_healthy-Keeps = (keeps s.World).of_bind _ _ describe_group-Keeps (λ g. ask-Keeps _)

        tg_healthy-Ends : Ends (tg_healthy s c)
        unfolding tg_healthy
        tg_healthy-Ends = (ends s.World).of_bind _ _ describe_group-Ends (λ g. ask-Ends _)

        tg_healthy-Keeps : Keeps (tg_healthy s c)
        unfolding tg_healthy
        tg_healthy-Keeps = (keeps s.World).of_bind _ _ describe_group-Keeps (λ g. ask-Keeps _)

        pub wait_for_elb-Ends : Ends (wait_for_elb s c (suc fuel) wait_timeout)
        unfolding wait_for_elb
        wait_for_elb-Ends = (ends s.World).of_bind _ _ describe_group-Ends (λ g.
            of_if (ends s.World) _ _ _
              (await_healthy-Ends fuel wait_timeout g.min_size _ enough elb_healthy-Keeps
                elb_healthy-Ends)
              ((ends s.World).of_return tt))

        pub wait_for_target_group-Ends : Ends (wait_for_target_group s c (suc fuel) wait_timeout)
        unfolding wait_for_target_group
        wait_for_target_group-Ends = (ends s.World).of_bind _ _ describe_group-Ends (λ g.
            of_if (ends s.World) _ _ _
              (await_healthy-Ends fuel wait_timeout g.min_size _ enough tg_healthy-Keeps
                tg_healthy-Ends)
              ((ends s.World).of_return tt))
