-- ===== src/Kinesis/Delete.antt =====
-- `delete_stream`.
pub mod Laws
use community_aws.Base.{
  ℕ, zero, suc, ◌+◌, ◌-◌, ◌*◌, ◌≤◌, ◌<◌, String, ◌≡◌, refl, sym, ap, ◌∙◌, ◌≢◌, ◌↔◌, ◌⊎◌, inl, inr,
  Bool, true, false, ◌&&◌, ◌||◌, not, Option, none, some, List, [], ◌∷◌, ◌++◌, map, arith,
  ℕ_discrete, ltb, leb, eqb, if◌then◌else◌, Bool-cases, Sum-cases, Option-cases, eqb_iff, length,
  take, drop, filter, any, all, All, filter-filter, filter-append, contains, contains-append,
  contains-filter, length-append, length-take, length-drop, take-append-drop, Eq, ◌==◌, ==_iff,
  ==_refl, ==_false, String-discrete, string_eq, nat_eq, bool_eq, option_eq, Option-discrete, upper,
  Error, key_error, value_error, type_error, index_error, unbound_local_error, fail_json,
  client_error, Result, ok, err, ◌>>◌, or_raise, raise_if, >>=-eq-ok, for_each, Result-cases,
  ok_pair, ok_inj, some_ok_pair,
}
use community_aws.Base.Int.{ℤ, pos}
use community_aws.Base.Run.{Run, Outcome, done, return_, ◌>>=◌}
use community_aws.Kinesis.Client.{Msg, deleted, being_deleted, does_not_exist, Kinesis}
use community_aws.Kinesis.Actions.{StreamAction, stream_action}
use community_aws.Kinesis.Find.{find_stream, wait_for_status}
use community_aws.Kinesis.Create.{Report, report}

module _ (k : Kinesis) (pages rounds : ℕ) where
  -- what follows a call that succeeded
  unfoldable pub after_delete : Bool → ℤ → Bool → Run k.World Report
  after_delete wait wait_timeout check_mode =
      if wait
      then (wait_for_status k pages rounds "DELETING" wait_timeout check_mode
          >>= λ (gone, wait_msg, stream). return_ (report gone true deleted stream))
      else return_ (report true true being_deleted none)

  unfoldable pub delete_stream : Bool → ℤ → Bool → Run k.World Report
  delete_stream wait wait_timeout check_mode =
      find_stream k pages check_mode >>= λ (found, find_msg, stream).
      if not found
      then return_ (report true false does_not_exist none)
      else stream_action k (pos 1) StreamAction.delete check_mode >>= λ (called, msg).
          if called
          then after_delete wait wait_timeout check_mode
          else return_ (report false false msg none)
