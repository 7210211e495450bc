-- ===== src/Kinesis/Main.antt =====
-- `main`: the checks of the parameters, and what is called. `exit_json` and `fail_json` both return
-- the report; its field `success` says which of them it was.
pub mod Laws
use community_aws.Base.{
  ℕ, zero, suc, ◌+◌, ◌-◌, ◌*◌, ◌≤◌, ◌<◌, String, ◌≡◌, refl, sym, ap, ◌∙◌, ◌≢◌, ◌↔◌, ◌⊎◌, inl, inr,
  Bool, true, false, ◌&&◌, ◌||◌, not, Option, none, some, List, [], ◌∷◌, ◌++◌, map, arith,
  ℕ_discrete, ltb, leb, eqb, if◌then◌else◌, Bool-cases, Sum-cases, Option-cases, eqb_iff, length,
  take, drop, filter, any, all, All, filter-filter, filter-append, contains, contains-append,
  contains-filter, length-append, length-take, length-drop, take-append-drop, Eq, ◌==◌, ==_iff,
  ==_refl, ==_false, String-discrete, string_eq, nat_eq, bool_eq, option_eq, Option-discrete, upper,
  Error, key_error, value_error, type_error, index_error, unbound_local_error, fail_json,
  client_error, Result, ok, err, ◌>>◌, or_raise, raise_if, >>=-eq-ok, for_each, Result-cases,
  ok_pair, ok_inj, some_ok_pair,
}
use community_aws.Base.Int.{ℤ, pos, negsuc, ltb_ℤ, eqb_ℤ}
use community_aws.Base.Run.{Run, Outcome, done, return_, raise, ◌>>=◌}
use community_aws.Kinesis.Client.{Tags, Kinesis}
use community_aws.Kinesis.Update.{Params}
use community_aws.Kinesis.Create.{Report, create_stream}
use community_aws.Kinesis.Delete.{delete_stream}
use community_aws.Kinesis.Encryption.{start_stream_encryption, stop_stream_encryption}

pub data State : Type 0 where
  present absent : State

pub data EncryptionState : Type 0 where
  enabled disabled : EncryptionState

-- the parameters of the module
pub record ModuleParams : Type 0 where
  pub shards : Option ℤ
  pub retention_period : Option ℤ
  pub tags : Option Tags
  pub wait : Bool
  pub wait_timeout : ℤ
  pub state : State
  pub encryption_type : Option String
  pub key_id : Option String
  pub encryption_state : Option EncryptionState
  pub check_mode : Bool

-- the truth of a number that may be missing
abbrev pub nonzero : Option ℤ → Option ℤ
nonzero none = none
nonzero (some n) = if eqb_ℤ n (pos 0) then none else some n

abbrev pub tags_or_empty : Option Tags → Tags
tags_or_empty none = []
tags_or_empty (some l) = l

unfoldable pub params_of : ModuleParams → ℤ → Params
params_of m shards = record {
  number_of_shards = shards;
  retention_period = nonzero m.retention_period;
  tags = tags_or_empty m.tags;
  wait = m.wait;
  wait_timeout = m.wait_timeout;
  check_mode = m.check_mode;
}

-- the two checks: the number of shards for the state `present`, and the period
unfoldable pub check_params : ModuleParams → Result (Unit {0})
check_params m =
    (elim m.state [
      | absent ↦ ok tt
      | present ↦ elim (nonzero m.shards) [
        | none ↦ err (fail_json "Shards is required when state == present.")
        | some n ↦ ok tt
      ]
    ])
    >> elim (nonzero m.retention_period) [
      | none ↦ ok tt
      | some n ↦
          if ltb_ℤ n (pos 24)
          then err (fail_json "Retention period can not be less than 24 hours.")
          else ok tt
    ]

abbrev pub shards_of : ModuleParams → ℤ
shards_of m = elim m.shards [ none ↦ pos 0 | some n ↦ n ]

module _ (k : Kinesis) (pages rounds : ℕ) where
  -- what follows the creation: its report is dropped where the encryption is set
  unfoldable pub set_encryption : ModuleParams → Report → Run k.World Report
  set_encryption m created = elim m.encryption_state [
    | none ↦ return_ created
    | some enabled ↦
        start_stream_encryption k pages rounds m.encryption_type m.key_id m.wait m.wait_timeout
          m.check_mode
    | some disabled ↦
        stop_stream_encryption k pages rounds m.encryption_type m.key_id m.wait m.wait_timeout
          m.check_mode
  ]

  unfoldable pub run_state : State → ModuleParams → Run k.World Report
  run_state present m =
      create_stream k pages rounds (params_of m (shards_of m)) >>= set_encryption m
  run_state absent m = delete_stream k pages rounds m.wait m.wait_timeout m.check_mode

  unfoldable pub main : ModuleParams → Run k.World Report
  main m = elim (check_params m) [ err e ↦ raise e | ok u ↦ run_state m.state m ]
