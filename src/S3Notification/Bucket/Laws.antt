-- ===== src/S3Notification/Bucket/Laws.antt =====
-- What `main` leaves in the bucket, and what it does a second time.
use community_aws.Base.{
  String, ◌≡◌, refl, sym, ap, ◌∙◌, ◌↔◌, inl, inr, Bool, true, false, not, Option, none, some, List,
  [], ◌∷◌, ◌++◌, Bool-cases, Sum-cases, filter-append, ◌==◌, ==_iff, ==_refl, string_eq, nat_eq,
  bool_eq, option_eq, ok, >>=-eq-ok, ok_pair, ok_inj,
}
use mathlib.Core.List.{append-nil}
use community_aws.S3Notification.Config.{Config, config_eq, Params, from_params}
use community_aws.S3Notification.Bucket.{
  Client, IsS3, State, present, absent, find_config, other_configs, is_same, nothing_to_do,
  new_configs, full_config, upload_bucket_config, main,
}

find-other_configs :
    (name : String) (l : List Config) → find_config name (other_configs name l) ≡ none
unfolding find_config other_configs
find-other_configs name [] = refl
find-other_configs name (k ∷ l) = elim (Bool-cases (k.id == name)) [
  | inl same ↦ rw same (find-other_configs name l)
  | inr other ↦ rw (other, other) (find-other_configs name l)
]

find-last :
    (name : String) (l : List Config) (k : Config)
    → find_config name l ≡ none
    → k.id ≡ name
    → find_config name (l ++ k ∷ []) ≡ some k
unfolding find_config
find-last name [] k h e = rw (e, ==_refl name)
find-last name (j ∷ l) k h e = elim (Bool-cases (j.id == name)) [
  | inl same ↦ cc (rw same at h)
  | inr other ↦ rw other (find-last name l k (rw other at h) e)
]

other_configs-again :
    (name : String) (l : List Config)
    → other_configs name (other_configs name l) ≡ other_configs name l
unfolding other_configs
other_configs-again name [] = refl
other_configs-again name (k ∷ l) = elim (Bool-cases (k.id == name)) [
  | inl same ↦ rw same (other_configs-again name l)
  | inr other ↦ rw (other, other) (ap (λ x. k ∷ x) (other_configs-again name l))
]

-- what is asked for a name
abbrev pub wanted : State → Config → Option Config
wanted present desired = some desired
wanted absent desired = none

-- The list that is uploaded has what is asked for under the name, and the others as they were.
new_configs-find :
    (state : State) (desired : Config) (l : List Config)
    → find_config desired.id (new_configs state desired l) ≡ wanted state desired
unfolding new_configs
new_configs-find present desired l =
    find-last desired.id (other_configs desired.id l) desired (find-other_configs desired.id l) refl
new_configs-find absent desired l = find-other_configs desired.id l

new_configs-others :
    (state : State) (desired : Config) (l : List Config)
    → other_configs desired.id (new_configs state desired l) ≡ other_configs desired.id l
unfolding new_configs other_configs
new_configs-others present desired l =
    filter-append (λ k. not (k.id == desired.id)) (other_configs desired.id l) (desired ∷ [])
    ∙ rw (==_refl desired.id, append-nil) (other_configs-again desired.id l)
new_configs-others absent desired l = other_configs-again desired.id l

-- nothing is to be done exactly where it is done
nothing_to_do-wanted :
    (state : State) (current : Option Config) (desired : Config)
    → (nothing_to_do state current desired ≡ true) ↔ (current ≡ wanted state desired)
unfolding nothing_to_do is_same
nothing_to_do-wanted present none desired = (λ h. cc, λ h. cc)
nothing_to_do-wanted present (some k) desired =
    (λ h. ap some ((==_iff k desired).0 h), λ h. (==_iff k desired).1 cc)
nothing_to_do-wanted absent none desired = (λ h. refl, λ h. refl)
nothing_to_do-wanted absent (some k) desired = (λ h. cc, λ h. cc)

-- the upload, and what it leaves to be read
module _ (c : Client) (s3 : IsS3 c) where
  upload-read :
      (l : List Config) (w w' : c.World)
      → upload_bucket_config c l w ≡ ok w'
      → c.get_bucket_notification_configuration w'
        ≡ ok (record { lambda_function = some l; topic = none; queue = none })
  unfolding upload_bucket_config
  upload-read l w w' h =
      elim (Sum-cases (
        c.put_bucket_notification_configuration
          (record { lambda_function = some l; topic = none; queue = none }) w)) [
            | inl (w1, put) ↦
                ap c.get_bucket_notification_configuration
                  (sym (ok_inj (rw (put, upload_bucket_config) at h)))
                ∙ s3.get-put _ w w1 put
            | inr (m, put) ↦ cc (rw (put, upload_bucket_config) at h)
          ]

  upload-full_config :
      (l : List Config) (w w' : c.World)
      → upload_bucket_config c l w ≡ ok w'
      → full_config c w' ≡ ok l
  unfolding full_config
  upload-full_config l w w' h = rw (upload-read l w w' h)

  -- Outside check mode, after a run that ends without exception, the bucket's notifications to
  -- functions are those that the run reports. Under the name of the event there is the one asked
  -- for, or none for the state `absent`; those of other names are as they were, in their order.
  pub main_lem :
      (state : State) (p : Params) (w w' : c.World) (l0 l : List Config) (changed : Bool)
      → full_config c w ≡ ok l0
      → main c state false p w ≡ ok ((changed, l), w')
      → (full_config c w' ≡ ok l)
        × (find_config p.event_name l ≡ wanted state (from_params p))
        × (other_configs p.event_name l ≡ other_configs p.event_name l0)
  unfolding main from_params
  main_lem state p w w' l0 l changed got h =
      let desired = from_params p in
      elim (Bool-cases (nothing_to_do state (find_config p.event_name l0) desired)) [
        | inl done ↦
            let e = ok_pair (rw (got, done) at h) in
            let same : l0 ≡ l = ap (λ x. x.1) e.0 in
            (
              ap (full_config c) (sym e.1) ∙ got ∙ ap ok same,
              ap (find_config p.event_name) (sym same)
                  ∙ (nothing_to_do-wanted state (find_config p.event_name l0) desired).0 done,
              ap (other_configs p.event_name) (sym same),
            )
        | inr todo ↦
            let (w1, uploaded, ended) =
              >>=-eq-ok (upload_bucket_config c (new_configs state desired l0) w) _
                (rw (got, todo) at h) in
            let e = ok_pair ended in
            let same : new_configs state desired l0 ≡ l = ap (λ x. x.1) e.0 in
            (
              ap (full_config c) (sym e.1) ∙ upload-full_config _ w w1 uploaded ∙ ap ok same,
              ap (find_config p.event_name) (sym same) ∙ new_configs-find state desired l0,
              ap (other_configs p.event_name) (sym same) ∙ new_configs-others state desired l0,
            )
      ]

  -- Outside check mode, a run that ends without exception leaves nothing to do: a second run, in
  -- check mode or not, succeeds, changes nothing, and reports the same notifications unchanged.
  pub main_twice :
      (state : State) (check_mode : Bool) (p : Params) (w w' : c.World) (l : List Config)
      (changed : Bool)
      → main c state false p w ≡ ok ((changed, l), w')
      → main c state check_mode p w' ≡ ok ((false, l), w')
  unfolding main from_params
  main_twice state check_mode p w w' l changed h =
      let (l0, got, _) = >>=-eq-ok (full_config c w) _ h in
      let (read, found, others) = main_lem state p w w' l0 l changed got h in
      rw (read, (nothing_to_do-wanted state (find_config p.event_name l) (from_params p)).1 found)

  -- A run that uploads leaves no notification to topics and none to queues.
  pub main_clears :
      (state : State) (p : Params) (w w' : c.World) (l : List Config)
      → main c state false p w ≡ ok ((true, l), w')
      → c.get_bucket_notification_configuration w'
        ≡ ok (record { lambda_function = some l; topic = none; queue = none })
  unfolding main
  main_clears state p w w' l h =
      let (l0, got, k) = >>=-eq-ok (full_config c w) _ h in
      elim (Bool-cases (nothing_to_do state (find_config p.event_name l0) (from_params p))) [
        | inl done ↦ let e = ok_pair (rw done at k) in cc (ap (λ x. x.0) e.0)
        | inr todo ↦
            let (w1, uploaded, ended) =
              >>=-eq-ok (upload_bucket_config c (new_configs state (from_params p) l0) w) _
                (rw todo at k) in
            let e = ok_pair ended in
            ap c.get_bucket_notification_configuration (sym e.1)
            ∙ upload-read _ w w1 uploaded
            ∙ ap (λ x. ok (record { lambda_function = some x.1; topic = none; queue = none })) e.0
      ]
