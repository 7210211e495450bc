-- ===== src/Kinesis/Find/Laws.antt =====
-- What `find_stream` returns and when it ends, and what a wait that ends has seen.
use community_aws.Base.{
  ℕ, zero, suc, ◌+◌, ◌*◌, ◌≤◌, String, ◌≡◌, refl, sym, ap, ◌∙◌, ◌⊎◌, inl, inr, Bool, true, false,
  none, some, List, [], ◌∷◌, ◌++◌, arith, if◌then◌else◌, Bool-cases, Sum-cases, length, ◌==◌,
  ==_iff, string_eq, nat_eq, bool_eq, option_eq,
}
use community_aws.Base.Int.{ℤ, pos, ◌+ℤ◌, ◌≤ℤ◌, ltb_ℤ}
use community_aws.Base.Run.{done, endless, ◌>>=◌, done_inj, bind-eq-done}
use mathlib.Core.Path.{subst}
use community_aws.Kinesis.Client.{
  Description, Stream, Msg, no_message, failed, wait_time_out, status_achieved, Kinesis, has_status,
}
use community_aws.Kinesis.Find.{
  closed_count, page_of, found_of, dry_run_stream, is_achieved, find_loop, find_stream, wait_loop,
  wait_for_status,
}

closed_count-le : (l : List Bool) → closed_count l ≤ length l
closed_count-le [] = omega arith
closed_count-le (true ∷ l) = omega (arith, closed_count-le l)
closed_count-le (false ∷ l) = omega (arith, closed_count-le l)

-- The service, without more shards than a page has, and a clock that a sleep moves on.
pub record IsService (k : Kinesis) : Type 0 where
  pub one_page :
      (w : k.World) (d : Description) → k.describe_stream w ≡ inl d → d.has_more_shards ≡ false
  pub sleep_lasts : (n : ℕ) (w : k.World) → k.now w + n ≤ k.now (k.sleep n w)

module _ (k : Kinesis) where
  -- the stream that a service with one page describes
  abbrev pub described : k.World → Bool × Msg × Stream
  described w = elim (k.describe_stream w) [
    | inr m ↦ (false, failed m, none)
    | inl d ↦ (true, no_message, some (found_of d d.closed_shards))
  ]

  -- Where the service says that there are more shards, `find_stream` does not end, however many
  -- pages it reads.
  find_stream-endless :
      (pages : ℕ) (w : k.World) (d : Description)
      → k.describe_stream w ≡ inl d
      → d.has_more_shards ≡ true
      → find_stream k pages false w ≡ endless
  unfolding find_stream find_loop
  find_stream-endless pages w d got more = go pages [] none
    where
      go : (fuel : ℕ) (l : List Bool) (s : Stream) → find_loop k fuel l s w ≡ endless
      go zero l s = refl
      go (suc fuel) l s =
          ground (arith, got, more, go fuel (l ++ d.closed_shards) (some (page_of d)))

  -- Where the service has no more shards than the first page, one page is enough: the state is left
  -- as it is, a ClientError is a stream that is not found, and the counts of a stream that is found
  -- are those of its shards, the open and the closed ones together.
  pub find_stream_lem :
      (s : IsService k) (pages : ℕ) (w : k.World)
      → (find_stream k (suc pages) false w ≡ done (described w, w))
  unfolding find_stream find_loop
  find_stream_lem s pages w = elim (Sum-cases (k.describe_stream w)) [
    | inr (m, got) ↦ ground (arith, got)
    | inl (d, got) ↦ ground (arith, got, s.one_page w d got)
  ]

  pub find_stream-done :
      (s : IsService k) (pages : ℕ) (check_mode : Bool) (w : k.World)
      → (r : Bool × Msg × Stream) × (find_stream k (suc pages) check_mode w ≡ done (r, w))
  unfolding find_stream
  find_stream-done s pages true w = ((true, no_message, some dry_run_stream), refl)
  find_stream-done s pages false w = (described w, find_stream_lem s pages w)

  wait_loop-total :
      (s : IsService k) (pages rounds : ℕ) (deadline : ℤ) (status : String) (check_mode : Bool)
      (stream : Stream) (w : k.World)
      → deadline ≤ℤ pos (k.now w + 5 * rounds)
      → (r : Bool × Stream) × (w' : k.World) × (wait_loop k
            (suc pages)
            (suc rounds)
            deadline
            status
            check_mode
            stream
            w
          ≡ done (r, w'))
  unfolding wait_loop
  wait_loop-total s pages zero deadline status check_mode stream w h =
      ((false, stream), w, ground (arith, h))
  wait_loop-total s pages (suc rounds) deadline status check_mode stream w h =
      elim (Bool-cases (ltb_ℤ (pos (k.now w)) deadline)) [
        | inr late ↦ ((false, stream), w, rw late)
        | inl early ↦
            let ((found, msg, stream'), e) = find_stream-done s pages check_mode w in
            elim (Bool-cases (is_achieved check_mode status found stream')) [
              | inl yes_ ↦ ((true, stream'), w, rw (early, e, ◌>>=◌, yes_))
              | inr no_ ↦
                  let (r, w', ended) =
                    wait_loop-total s pages rounds deadline status check_mode stream' (k.sleep 5 w)
                      (omega (arith, s.sleep_lasts 5 w)) in
                  (r, w', rw (early, e, ◌>>=◌, no_) ended)
            ]
      ]

  late_enough :
      (now rounds : ℕ) (timeout : ℤ)
      → timeout ≤ℤ pos (5 * rounds)
      → (pos now +ℤ timeout) ≤ℤ pos (now + 5 * rounds)
  unfolding ◌+ℤ◌
  late_enough now rounds timeout h = ground (arith, h)

  -- A round for every five seconds of the timeout, and one more, is enough: where the service has
  -- no more shards than a page, the wait for a status ends, and returns.
  pub wait_for_status-total :
      (s : IsService k) (pages rounds : ℕ) (status : String) (wait_timeout : ℤ) (check_mode : Bool)
      (w : k.World)
      → wait_timeout ≤ℤ pos (5 * rounds)
      → (r : Bool × Msg × Stream) × (w' : k.World) × (wait_for_status k
            (suc pages)
            (suc rounds)
            status
            wait_timeout
            check_mode
            w
          ≡ done (r, w'))
  unfolding wait_for_status
  wait_for_status-total s pages rounds status wait_timeout check_mode w h =
      let ((achieved, stream), w', e) =
        wait_loop-total s pages rounds (pos (k.now w) +ℤ wait_timeout) status check_mode none w
          (late_enough (k.now w) rounds wait_timeout h) in
      (
        (achieved, (if achieved then status_achieved status else wait_time_out), stream),
        w',
        rw (e, ◌>>=◌),
      )

  wait_loop-achieved :
      (s : IsService k) (pages rounds : ℕ) (deadline : ℤ) (status : String) (before stream : Stream)
      (w w' : k.World)
      → wait_loop k (suc pages) rounds deadline status false before w ≡ done ((true, stream), w')
      → (stream ≡ (described w').2) × (is_achieved false status (described w').0 stream ≡ true)
  unfolding wait_loop
  wait_loop-achieved s pages zero deadline status before stream w w' h = cc
  wait_loop-achieved s pages (suc rounds) deadline status before stream w w' h =
      elim (Bool-cases (ltb_ℤ (pos (k.now w)) deadline)) [
        | inr late ↦ cc (rw late at h)
        | inl early ↦
            let e = find_stream_lem s pages w in
            elim (Bool-cases (is_achieved false status (described w).0 (described w).2)) [
              | inl yes_ ↦
                  let (same, there) = done_inj (rw (early, e, ◌>>=◌, yes_) at h) in
                  let st : (described w).2 ≡ stream = ap (λ x. x.1) same in
                  (
                    sym st ∙ ap (λ v. (described v).2) there,
                    subst (λ v. is_achieved false status (described v).0 stream ≡ true) there
                        (subst (λ x. is_achieved false status (described w).0 x ≡ true) st yes_),
                  )
              | inr no_ ↦
                  wait_loop-achieved s pages rounds deadline status (described w).2 stream
                    (k.sleep 5 w) w' (rw (early, e, ◌>>=◌, no_) at h)
            ]
      ]

  achieved_status :
      (status : String) (found : Bool) (stream : Stream)
      → is_achieved false status found stream ≡ true
      → ((status ≡ "DELETING") × (found ≡ false))
        ⊎ ((found ≡ true) × (has_status status stream ≡ true))
  unfolding is_achieved
  achieved_status status found stream h = elim (Bool-cases (status == "DELETING")) [
    | inl leaving ↦ inl ((==_iff status "DELETING").0 leaving, ground (arith, rw leaving at h))
    | inr staying ↦ inr (ground (arith, rw staying at h))
  ]

  -- the end of a wait that succeeds
  pub wait_for_status-is_achieved :
      (s : IsService k) (pages rounds : ℕ) (status : String) (wait_timeout : ℤ) (msg : Msg)
      (stream : Stream) (w w' : k.World)
      → wait_for_status k (suc pages) rounds status wait_timeout false w
        ≡ done ((true, msg, stream), w')
      → (stream ≡ (described w').2) × (is_achieved false status (described w').0 stream ≡ true)
  unfolding wait_for_status
  wait_for_status-is_achieved s pages rounds status wait_timeout msg stream w w' h =
      let ((achieved, last), v, looped, ended) =
        bind-eq-done
          (wait_loop k (suc pages) rounds (pos (k.now w) +ℤ wait_timeout) status false none) _ w w'
          _ h in
      let (same, there) = done_inj ended in
      let yes_ : achieved ≡ true = ap (λ x. x.0) same in
      let st : last ≡ stream = ap (λ x. x.2) same in
      wait_loop-achieved s pages rounds _ status none stream w w'
        (looped ∙ (λ i. done ((yes_ i, st i), there i)))

  -- Outside check mode, and where the service has no more shards than a page, a wait that succeeds
  -- returns the stream that the service describes in the state at the end of the wait, and that
  -- stream has the status waited for; for the status DELETING, no stream is found there.
  wait_for_status-achieved :
      (s : IsService k) (pages rounds : ℕ) (status : String) (wait_timeout : ℤ) (msg : Msg)
      (stream : Stream) (w w' : k.World)
      → wait_for_status k (suc pages) rounds status wait_timeout false w
        ≡ done ((true, msg, stream), w')
      → (stream ≡ (described w').2)
        × (((status ≡ "DELETING") × ((described w').0 ≡ false))
            ⊎ (((described w').0 ≡ true) × (has_status status stream ≡ true)))
  wait_for_status-achieved s pages rounds status wait_timeout msg stream w w' h =
      let (here, seen) =
        wait_for_status-is_achieved s pages rounds status wait_timeout msg stream w w' h in
      (here, achieved_status status (described w').0 stream seen)
