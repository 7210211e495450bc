-- ===== src/ManagedPolicy/Main/Laws.antt =====
-- What a run for `present` makes of a policy that is there.
use community_aws.Base.{
  ℕ, String, ◌≡◌, sym, ap, ◌∙◌, ◌⊎◌, inl, inr, Bool, true, false, ◌||◌, Option, some, List, arith,
  if◌then◌else◌, string_eq, nat_eq, bool_eq, option_eq, Result, ok,
}
use mathlib.Core.Path.{subst}
use community_aws.Base.Run.{done, ◌>>=◌, bind-eq-done, done_inj}
use community_aws.ManagedPolicy.Client.{Version, Policy, Iam, any_fails, ask}
use community_aws.ManagedPolicy.Versions.{get_or_create_policy_version, set_if_default, set_if_only}
use community_aws.ManagedPolicy.Versions.Laws.{IsIam, HasDefault, ask-done, set_if_only-Preserves}
use community_aws.ManagedPolicy.Versions.Default.{
  IsFound, IsMade, Chosen, get_or_create-Chosen, set_if_default-HasDefault,
}
use community_aws.ManagedPolicy.Main.{
  present, Params, Report, find_policy, get_policy_by_name, refreshed, update, run_state, main,
}

module _ (c : Iam) (law : IsIam c) where
  refreshed-keeps :
      (p : Policy) (b : Bool) (w w' : c.World) (r : Report)
      → refreshed c p b w ≡ done (r, w')
      → w' ≡ w
  unfolding refreshed
  refreshed-keeps p false w w' r h = sym (done_inj h).1
  refreshed-keeps p true w w' r h =
      let read : c.World → Result Policy =
        λ u. any_fails "Couldn't get policy" (c.get_policy p.policy_arn u) in
      let (q, v, asked, next) = bind-eq-done (ask c read) _ w w' r h in
      sym (done_inj next).1 ∙ (ask-done c read w v q asked).1

  -- the report of a change says so
  refreshed-changed :
      (p : Policy) (b : Bool) (w w' : c.World) (r : Report)
      → refreshed c p b w ≡ done (r, w')
      → r.changed ≡ b
  unfolding refreshed
  refreshed-changed p false w w' r h = ap (λ (x : Report). x.changed) (sym (done_inj h).0)
  refreshed-changed p true w w' r h =
      let read : c.World → Result Policy =
        λ u. any_fails "Couldn't get policy" (c.get_policy p.policy_arn u) in
      let (q, v, asked, next) = bind-eq-done (ask c read) _ w w' r h in
      ap (λ (x : Report). x.changed) (sym (done_inj next).0)

  -- where the version comes from, in the words of the report
  abbrev pub IsChosen : String → String → c.World → Report → Version → Type 0
  IsChosen arn document w r v =
      IsFound c arn document w v ⊎ ((r.changed ≡ true) × IsMade c arn document w v)

  update-HasDefault :
      (m : Params) (p : Policy) (d : Option String) (w w' : c.World) (r : Report)
      → HasDefault c law p.policy_arn d w
      → update c m p w ≡ done (r, w')
      → (v : Version) × IsChosen p.policy_arn m.policy w r v
        × HasDefault c law p.policy_arn (if m.make_default then some v.version_id else d) w'
  unfolding update Chosen
  update-HasDefault m p d w w' r has h =
      let arn = p.policy_arn in
      let ((v, created), w1, chosen_, next1) =
        bind-eq-done (get_or_create_policy_version c arn m.policy) _ w w' r h in
      let chosen = get_or_create-Chosen c law arn m.policy d w w1 (v, created) has chosen_ in
      let (moved, w2, set_, next2) =
        bind-eq-done (set_if_default c arn v m.make_default) _ w1 w' r next1 in
      let (cleaned, w3, deleted, next3) =
        bind-eq-done (set_if_only c arn m.only_version) _ w2 w' r next2 in
      let wanted : Option String = if m.make_default then some v.version_id else d in
      let has2 : HasDefault c law arn wanted w2 =
        set_if_default-HasDefault c law arn m.policy d v m.make_default w1 w2 moved chosen.0
          chosen.1.0 set_ in
      let has3 : HasDefault c law arn wanted w3 =
        set_if_only-Preserves c law arn wanted m.only_version w2 w3 cleaned deleted has2 in
      (
        v,
        elim chosen.1.1 [
          | inl (old, found) ↦ inl found
          | inr (new, made) ↦ inr (
            refreshed-changed p (cleaned || (moved || created)) w3 w' r next3 ∙ ground (arith, new),
            made,
          )
        ],
        subst (HasDefault c law arn wanted)
            (sym (refreshed-keeps p (cleaned || (moved || created)) w3 w' r next3)) has3,
      )

  -- Where a run for `present` finds a policy of the name, and ends with a report, there is a version
  -- that the service listed before the run, with the document that is asked for; or the run reports a
  -- change, and the version was created from that document, in the state before the run or in the one
  -- that the deletion of the oldest version left. If a default is to be made, that version is the
  -- default one then; if not, the default version is what it was before, whatever other versions are
  -- deleted on the way.
  pub main-HasDefault :
      (pages : ℕ) (m : Params) (p : Policy) (l : List Policy) (d : Option String) (w w' : c.World)
      (r : Report)
      → m.state ≡ present
      → c.list_policies w ≡ ok l
      → find_policy m.policy_name l ≡ some p
      → HasDefault c law p.policy_arn d w
      → main c pages m w ≡ done (r, w')
      → (v : Version) × IsChosen p.policy_arn m.policy w r v
        × HasDefault c law p.policy_arn (if m.make_default then some v.version_id else d) w'
  unfolding main get_policy_by_name
  main-HasDefault pages m p l d w w' r st listed found has ran =
      update-HasDefault m p d w w' r has (by_state (rw (listed, ◌>>=◌, found) at ran))
    where
      by_state :
          run_state c pages m m.state (some p) w ≡ done (r, w') → update c m p w ≡ done (r, w')
      by_state h = subst (λ x. run_state c pages m x (some p) w ≡ done (r, w')) st h
