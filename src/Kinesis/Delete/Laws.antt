-- ===== src/Kinesis/Delete/Laws.antt =====
-- What the deletion of a stream leaves.
use community_aws.Base.{
  ℕ, suc, String, ◌≡◌, sym, ap, ◌∙◌, ◌⊎◌, inl, inr, Bool, true, false, arith, Bool-cases, Sum-cases,
  ==_refl, string_eq, nat_eq, bool_eq, option_eq,
}
use community_aws.Base.Int.{ℤ}
use community_aws.Base.Run.{done, done_inj, ◌>>=◌, bind-eq-done}
use community_aws.Kinesis.Client.{Stream, Kinesis, attempt}
use community_aws.Kinesis.Actions.{stream_action}
use community_aws.Kinesis.Find.{wait_for_status, is_achieved}
use community_aws.Kinesis.Find.Laws.{
  IsService, find_stream_lem, described, wait_for_status-is_achieved,
}
use community_aws.Kinesis.Create.{Report}
use community_aws.Kinesis.Delete.{after_delete, delete_stream}
use mathlib.Core.Path.{subst}

module _ (k : Kinesis) where
  not_found :
      (found : Bool) (stream : Stream)
      → is_achieved false "DELETING" found stream ≡ true
      → found ≡ false
  unfolding is_achieved
  not_found found stream h = ground (arith, h, ==_refl {A = String} "DELETING")

  -- Outside check mode, and where the service has no more shards than a page, a deletion that waits
  -- and reports success leaves no stream that the service describes; it reports a change unless
  -- there was no stream at the start, and then the state is as it was.
  pub delete_stream-gone :
      (s : IsService k) (pages rounds : ℕ) (wait_timeout : ℤ) (r : Report) (w w' : k.World)
      → delete_stream k (suc pages) rounds true wait_timeout false w ≡ done (r, w')
      → r.success ≡ true
      → ((described k w').0 ≡ false)
        × ((r.changed ≡ true) ⊎ (((described k w).0 ≡ false) × (w' ≡ w)))
  unfolding delete_stream after_delete stream_action is_achieved
  delete_stream-gone s pages rounds wait_timeout r w w' h success =
      elim (Bool-cases (described k w).0) [
        | inr missing ↦
            let (same, there) = done_inj (rw (find_stream_lem k s pages w, ◌>>=◌, missing) at h) in
            (subst (λ v. (described k v).0 ≡ false) there missing, inr (missing, sym there))
        | inl found ↦
            let after = rw (find_stream_lem k s pages w, ◌>>=◌, found) at h in
            elim (Sum-cases (k.delete_stream w)) [
              | inr (m, e) ↦
                  cc (ap (λ x. x.success) (done_inj (rw (e, ◌>>=◌, attempt) at after)).0 ∙ success)
              | inl (v, e) ↦
                  let ((gone, msg, stream), u, waited, ended) =
                    bind-eq-done
                      (wait_for_status k (suc pages) rounds "DELETING" wait_timeout false) _ v w' _
                      (rw (e, attempt, ◌>>=◌) at after) in
                  let (same, there) = done_inj ended in
                  let ok_ : gone ≡ true = ap (λ x. x.success) same ∙ success in
                  let (here, seen) =
                    wait_for_status-is_achieved k s pages rounds "DELETING" wait_timeout msg stream
                      v w' (waited ∙ (λ i. done ((ok_ i, msg, stream), there i))) in
                  (not_found (described k w').0 stream seen, inl (sym (ap (λ x. x.changed) same)))
            ]
      ]
