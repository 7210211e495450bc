-- ===== src/ManagedPolicy/Versions/Default.antt =====
-- The version that a run finds or creates, and what becomes of the default version.
use community_aws.Base.{
  some_inj, String, ◌≡◌, refl, sym, ◌∙◌, ◌≢◌, ◌⊎◌, inl, inr, Bool, true, false, Option, none, some,
  List, [], ◌∷◌, if◌then◌else◌, Bool-cases, All, ◌==◌, string_eq, nat_eq, bool_eq, option_eq,
  key_error, value_error, type_error, index_error, unbound_local_error, fail_json, client_error,
  Result, ok, Result-cases,
}
use mathlib.Core.Path.{subst}
use community_aws.Base.Run.{done, return_, bind-eq-done, done_inj}
use community_aws.ManagedPolicy.Client.{Version, Iam, client_fails, ask, change_with}
use community_aws.ManagedPolicy.Versions.{
  list_versions, delete_oldest_non_default_version, find_version, try_create, create_again,
  or_again, create_version, found_or_new, get_or_create_policy_version, set_default, set_if_default,
}
use community_aws.ManagedPolicy.Versions.Laws.{
  IsIam, HasDefault, client_fails-ok, ask-done, change_with-done, list_versions-done,
  set_default-done, delete_oldest-Preserves,
}

abbrev IsAmong : Version → List Version → Type 0
IsAmong v [] = ⊥
IsAmong v (x ∷ l) = (v ≡ x) ⊎ IsAmong v l

All-IsAmong :
    (Q : Version → Type 0) (l m : List Version)
    → ((v : Version) → IsAmong v l → IsAmong v m)
    → All Q l
    → All (λ v. IsAmong v m × Q v) l
All-IsAmong Q [] m h qs = tt
All-IsAmong Q (v ∷ l) m h (q, qs) = ((h v (inl refl), q), All-IsAmong Q l m (λ x k. h x (inr k)) qs)

module _ (c : Iam) (arn document : String) where
  -- in that state, the version's document is the one that is asked for
  abbrev Reads : c.World → Version → Type 0
  Reads w v =
      (d : c.Document) × (c.get_policy_version arn v.version_id w ≡ ok d)
      × (c.differs d document ≡ false)

  -- In that state, the service lists the version, and its document is the one that is asked for.
  abbrev pub IsFound : c.World → Version → Type 0
  IsFound w v =
      ((l : List Version) × (c.list_policy_versions arn w ≡ ok l) × IsAmong v l) × Reads w v

  -- The version was created with the document, in that state or in the one that the deletion of the
  -- oldest version made of it.
  abbrev pub IsMade : c.World → Version → Type 0
  IsMade w v =
      (u : c.World) × (w' : c.World) × ((u ≡ w)
        ⊎ (delete_oldest_non_default_version c arn w ≡ done (tt, u)))
      × (c.create_policy_version arn document u ≡ ok (v, w'))

  -- what the loop over the versions finds
  find_version-done :
      (P : Version → Type 0) (l : List Version) (w w' : c.World) (o : Option Version)
      → All P l
      → find_version c arn document l w ≡ done (o, w')
      → (w' ≡ w) × ((v : Version) → o ≡ some v → P v × Reads w v)
  unfolding find_version
  find_version-done P [] w w' o ps h = (sym (done_inj h).1, λ v e. cc ((done_inj h).0 ∙ e))
  find_version-done P (x ∷ l) w w' o (p, ps) h =
      let read : c.World → Result c.Document =
        λ u. client_fails "Couldn't get policy version" (c.get_policy_version arn x.version_id u) in
      let (d, v, asked, next) = bind-eq-done (ask c read) _ w w' o h in
      let (answer, same) = ask-done c read w v d asked in
      elim (Bool-cases (c.differs d document)) [
        | inl other ↦
            let (kept, found) = find_version-done P l v w' o ps (rw other at next) in
            (kept ∙ same, λ y e. ((found y e).0, subst (λ u. Reads u y) same (found y e).1))
        | inr equal_ ↦
            let e = done_inj (rw equal_ at next) in
            (
              sym e.1 ∙ same,
              λ y found.
                  subst (λ z. P z × Reads w z) (some_inj (e.0 ∙ found))
                    (p, (d, client_fails-ok "Couldn't get policy version" _ d answer, equal_)),
            )
      ]

module _ (c : Iam) (law : IsIam c) (arn document : String) where
  -- the default version is the one, and the version is not, and was made from the document
  abbrev New : c.World → Option String → Version → c.World → Type 0
  New w0 d v w =
      HasDefault c law arn d w × ((v.is_default_version ≡ false) × IsMade c arn document w0 v)

  created-New :
      (w0 : c.World) (d : Option String) (w w' : c.World) (v : Version)
      → (w ≡ w0) ⊎ (delete_oldest_non_default_version c arn w0 ≡ done (tt, w))
      → HasDefault c law arn d w
      → c.create_policy_version arn document w ≡ ok (v, w')
      → New w0 d v w'
  created-New w0 d w w' v from has made =
      let (kept, fresh) = law.creates arn document w w' v made in
      (kept ∙ has, (fresh, (w, w', from, made)))

  try_create-done :
      (d : Option String) (w w' : c.World) (o : Option Version)
      → HasDefault c law arn d w
      → try_create c arn document w ≡ done (o, w')
      → HasDefault c law arn d w'
        × ((o ≡ none → w' ≡ w) × ((v : Version) → o ≡ some v → New w d v w'))
  unfolding try_create
  try_create-done d w w' o has h = elim (Result-cases (c.create_policy_version arn document w)) [
    | inl ((x, u), made) ↦
        let e = done_inj (rw (made, try_create) at h) in
        let new : New w d x w' =
          subst (New w d x) e.1 (created-New w d w u x (inl refl) has made) in
        (
          new.0,
          (
            (λ none_. cc (e.0 ∙ none_)),
            λ v found. subst (λ y. New w d y w') (some_inj (e.0 ∙ found)) new,
          ),
        )
    | inr (client_error code, failed) ↦ elim (Bool-cases (code == "LimitExceeded")) [
      | inl limit ↦
          let e = done_inj (rw (failed, try_create, limit) at h) in
          (
            subst (HasDefault c law arn d) e.1 has,
            ((λ none_. sym e.1), λ v found. cc (e.0 ∙ found)),
          )
      | inr other ↦ absurd (cc (rw (failed, try_create, other) at h))
    ]
    | inr (key_error m, failed) ↦ absurd (cc (rw (failed, try_create) at h))
    | inr (fail_json m, failed) ↦ absurd (cc (rw (failed, try_create) at h))
    | inr (value_error, failed) ↦ absurd (cc (rw (failed, try_create) at h))
    | inr (type_error, failed) ↦ absurd (cc (rw (failed, try_create) at h))
    | inr (index_error, failed) ↦ absurd (cc (rw (failed, try_create) at h))
    | inr (unbound_local_error, failed) ↦ absurd (cc (rw (failed, try_create) at h))
  ]

  create_again-New :
      (d : Option String) (w w' : c.World) (v : Version)
      → HasDefault c law arn d w
      → create_again c arn document w ≡ done (v, w')
      → New w d v w'
  unfolding create_again
  create_again-New d w w' v has h =
      let call : c.World → Result (Version × c.World) = λ u.
        client_fails "Couldn't create policy version" (c.create_policy_version arn document u) in
      let (x, u, cleaned, next) =
        bind-eq-done (delete_oldest_non_default_version c arn) (λ _. change_with c call) w w' v h in
      created-New w d u w' v (inr cleaned) (delete_oldest-Preserves c law arn d w u x cleaned has) (
        client_fails-ok "Couldn't create policy version" (c.create_policy_version arn document u)
          (v, w') (change_with-done c call u w' v next))

  create_version-New :
      (d : Option String) (w w' : c.World) (v : Version)
      → HasDefault c law arn d w
      → create_version c arn document w ≡ done (v, w')
      → New w d v w'
  unfolding create_version
  create_version-New d w w' v has h =
      let (o, u, tried, next) =
        bind-eq-done (try_create c arn document) (or_again c arn document) w w' v h in
      let (kept, (unmoved, some_new)) = try_create-done d w u o has tried in
      or_again-New o kept unmoved some_new next
    where
      or_again-New :
          (o : Option Version) {u : c.World}
          → HasDefault c law arn d u
          → (o ≡ none → u ≡ w)
          → ((x : Version) → o ≡ some x → New w d x u)
          → or_again c arn document o u ≡ done (v, w')
          → New w d v w'
      or_again-New none {u} kept unmoved new next =
          subst (λ x. New x d v w') (unmoved refl) (create_again-New d u w' v kept next)
      or_again-New (some x) {u} kept unmoved new next =
          let e = done_inj next in
          subst (λ z. New w d v z) e.1 (subst (λ y. New w d y u) e.0 (new x refl))

  -- where the version comes from, and whether it was created
  abbrev pub ComesFrom : c.World → Version → Bool → Type 0
  ComesFrom w v created =
      ((created ≡ false) × IsFound c arn document w v)
      ⊎ ((created ≡ true) × IsMade c arn document w v)

  -- the version that is found or created, and what is known of the default one
  unfoldable pub Chosen : c.World → Option String → Version × Bool → c.World → Type 0
  Chosen w0 d (v, created) w =
      HasDefault c law arn d w
      × ((v.is_default_version ≡ true → d ≡ some v.version_id) × ComesFrom w0 v created)

  pub get_or_create-Chosen :
      (d : Option String) (w w' : c.World) (r : Version × Bool)
      → HasDefault c law arn d w
      → get_or_create_policy_version c arn document w ≡ done (r, w')
      → Chosen w d r w'
  unfolding get_or_create_policy_version Chosen
  get_or_create-Chosen d w w' r has h =
      let (l, u, listed, next) = bind-eq-done (list_versions c arn) _ w w' r h in
      let (answer, same) = list_versions-done c arn w u l listed in
      let (o, u', searched, after) =
        bind-eq-done (find_version c arn document l) (found_or_new c arn document) u w' r next in
      let (kept, found) =
        find_version-done c arn document
          (λ v.
            IsAmong v l
            × ((v.is_default_version ≡ true → law.default_version arn w ≡ some v.version_id)
                × (v.is_default_version ≡ false → law.default_version arn w ≢ some v.version_id)))
          l u u' o (All-IsAmong _ l l (λ v k. k) (law.lists arn w l answer)) searched in
      found_or_new-Chosen o (kept ∙ same) (subst (HasDefault c law arn d) (sym (kept ∙ same)) has)
        (λ v e.
          let ((among, marked), read) = found v e in
          (
            (λ t. sym has ∙ marked.0 t),
            ((l, answer, among), subst (λ x. Reads c arn document x v) same read),
          ))
        after
    where
      found_or_new-Chosen :
          (o : Option Version) {u : c.World}
          → u ≡ w
          → HasDefault c law arn d u
          → ((v : Version)
              → o ≡ some v
              → (v.is_default_version ≡ true → d ≡ some v.version_id) × IsFound c arn document w v)
          → found_or_new c arn document o u ≡ done (r, w')
          → Chosen w d r w'
      found_or_new-Chosen (some v) {u} unmoved kept found next =
          let e = done_inj next in
          subst (λ z. Chosen w d r z) e.1
            (subst (λ y. Chosen w d y u) e.0
              (kept, ((found v refl).0, inl (refl, (found v refl).1))))
      found_or_new-Chosen none {u} unmoved kept found next =
          let (v, u', made, after) =
            bind-eq-done (create_version c arn document) (λ v. return_ (v, true)) u w' r next in
          let new : New w d v u' =
            subst (λ x. New x d v u') unmoved (create_version-New d u u' v kept made) in
          let e = done_inj after in
          subst (λ z. Chosen w d r z) e.1
            (subst (λ y. Chosen w d y u') e.0
              (new.0, ((λ t. cc (sym t ∙ new.1.0)), inr (refl, new.1.1))))

  -- behind `set_if_default`: the version is the default one if that is asked for
  pub set_if_default-HasDefault :
      (d : Option String) (v : Version) (is_default : Bool) (w w' : c.World) (b : Bool)
      → HasDefault c law arn d w
      → (v.is_default_version ≡ true → d ≡ some v.version_id)
      → set_if_default c arn v is_default w ≡ done (b, w')
      → HasDefault c law arn (if is_default then some v.version_id else d) w'
  unfolding set_if_default
  set_if_default-HasDefault d v false w w' b has marked h =
      subst (HasDefault c law arn d) (done_inj h).1 has
  set_if_default-HasDefault d v true w w' b has marked h = elim (Bool-cases v.is_default_version) [
    | inl yes_ ↦
        subst (HasDefault c law arn (some v.version_id)) (done_inj (rw yes_ at h)).1
          (has ∙ marked yes_)
    | inr no_ ↦
        let (x, u, set_, after) =
          bind-eq-done (set_default c arn v) (λ _. return_ true) w w' b (rw no_ at h) in
        subst (HasDefault c law arn (some v.version_id)) (done_inj after).1
          (law.sets arn v.version_id w u (set_default-done c arn v w u x set_))
  ]
