-- ===== src/Kinesis/Main/Laws.antt =====
-- What the module reports where the creation fails.
use community_aws.Base.{
  ℕ, suc, String, ◌≡◌, refl, sym, inr, true, false, none, some, arith, string_eq, nat_eq, bool_eq,
  option_eq, ok,
}
use community_aws.Base.Run.{done, ◌>>=◌}
use community_aws.Kinesis.Client.{Kinesis, failed, failed_to_create, does_not_exist}
use community_aws.Kinesis.Actions.{stream_action}
use community_aws.Kinesis.Find.{find_loop, find_stream}
use community_aws.Kinesis.Update.{Params}
use community_aws.Kinesis.Create.{report, Report, returns, create_new, collect_made, create_stream}
use community_aws.Kinesis.Encryption.{start_stream_encryption, stop_stream_encryption}
use community_aws.Kinesis.Main.{
  ModuleParams, present, EncryptionState, enabled, disabled, check_params, params_of, shards_of,
  set_encryption, run_state, main,
}
use mathlib.Core.Path.{subst}

module _ (k : Kinesis) where
  find_stream-missing :
      (pages : ℕ) (missing : String) (w : k.World)
      → k.describe_stream w ≡ inr missing
      → find_stream k (suc pages) false w ≡ done ((false, failed missing, none), w)
  unfolding find_stream find_loop
  find_stream-missing pages missing w gone = ground (arith, gone)

  create_new-refused :
      (pages rounds : ℕ) (p : Params) (text : String) (w : k.World)
      → p.check_mode ≡ false
      → k.create_stream p.number_of_shards w ≡ inr text
      → create_new k pages rounds p w
        ≡ done (returns (report false true (failed_to_create (failed text)) none), w)
  unfolding create_new stream_action
  create_new-refused pages rounds p text w real refused = ground (arith, real, refused)

  create_stream-refused :
      (pages rounds : ℕ) (p : Params) (missing text : String) (w : k.World)
      → p.check_mode ≡ false
      → k.describe_stream w ≡ inr missing
      → k.create_stream p.number_of_shards w ≡ inr text
      → create_stream k (suc pages) rounds p w
        ≡ done (report false true (failed_to_create (failed text)) none, w)
  unfolding create_stream collect_made
  create_stream-refused pages rounds p missing text w real gone refused =
      rw
        (
          real,
          find_stream-missing pages missing w gone,
          ◌>>=◌,
          create_new-refused (suc pages) rounds p text w real refused,
        )
        refl

  set_encryption-missing :
      (pages rounds : ℕ) (m : ModuleParams) (e : EncryptionState) (r : Report) (missing : String)
      (w : k.World)
      → m.encryption_state ≡ some e
      → m.check_mode ≡ false
      → k.describe_stream w ≡ inr missing
      → set_encryption k (suc pages) rounds m r w ≡ done (report true false does_not_exist none, w)
  unfolding set_encryption start_stream_encryption stop_stream_encryption
  set_encryption-missing pages rounds m enabled r missing w asked real gone =
      rw (asked, real, find_stream-missing pages missing w gone, ◌>>=◌) refl
  set_encryption-missing pages rounds m disabled r missing w asked real gone =
      rw (asked, real, find_stream-missing pages missing w gone, ◌>>=◌) refl

  -- Outside check mode, where no stream can be described, the call that creates one fails, and the
  -- encryption is asked for, the module reports success with no change and leaves the state: the
  -- failure to create the stream is not reported.
  pub main-hides_failure :
      (pages rounds : ℕ) (m : ModuleParams) (e : EncryptionState) (missing text : String)
      (w : k.World)
      → m.state ≡ present
      → m.check_mode ≡ false
      → m.encryption_state ≡ some e
      → check_params m ≡ ok tt
      → k.describe_stream w ≡ inr missing
      → k.create_stream (shards_of m) w ≡ inr text
      → main k (suc pages) rounds m w ≡ done (report true false does_not_exist none, w)
  unfolding main run_state params_of
  main-hides_failure pages rounds m e missing text w is_present real asked good gone refused =
      let created =
        create_stream-refused pages rounds (params_of m (shards_of m)) missing text w real gone
          refused in
      rw (good, main)
        (subst
          (λ state.
            run_state k (suc pages) rounds state m w
            ≡ done (report true false does_not_exist none, w))
          (sym is_present)
          (rw (created, ◌>>=◌)
            (set_encryption-missing pages rounds m e _ missing w asked real gone)))
