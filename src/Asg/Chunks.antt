-- ===== src/Asg/Chunks.antt =====
-- `get_chunks`, and Python's slice `l[:n]` for an n of either sign.
use community_aws.Base.{
  ℕ, zero, suc, ◌-◌, ◌≤◌, ◌≡◌, refl, List, [], ◌∷◌, ◌++◌, arith, length, take, drop, All,
  length-take, length-drop, take-append-drop, string_eq, nat_eq, bool_eq, option_eq, value_error,
  Result, ok, err,
}
use community_aws.Base.Int.{ℤ, pos, negsuc}

-- `l[:n]`: a negative n drops from the end
unfoldable pub slice_to {ℓ} : {A : Type ℓ} → ℤ → List A → List A
slice_to (pos n) l = take n l
slice_to (negsuc n) l = take (length l - suc n) l

-- the rounds of `for i in range(0, len(l), n)` for a step n of at least one
unfoldable pub chunks_of {ℓ} : {A : Type ℓ} → ℕ → ℕ → List A → List (List A)
chunks_of zero n l = []
chunks_of (suc fuel) n [] = []
chunks_of (suc fuel) n (x ∷ l) = take n (x ∷ l) ∷ chunks_of fuel n (drop n (x ∷ l))

-- `range` refuses a step of zero, and a negative step yields no round. The length is fuel enough.
unfoldable pub get_chunks {ℓ} : {A : Type ℓ} → List A → ℤ → Result (List (List A))
unfolding chunks_of
get_chunks l (pos zero) = err value_error
get_chunks l (pos (suc n)) = ok (chunks_of (length l) (suc n) l)
get_chunks l (negsuc n) = ok []

pub concat : {A : Type 0} → List (List A) → List A
concat [] = []
concat (l ∷ ls) = l ++ concat ls

chunks_of-concat :
    {A : Type 0} (fuel n : ℕ) (l : List A) → length l ≤ fuel → concat (chunks_of fuel (suc n) l) ≡ l
unfolding concat chunks_of
chunks_of-concat zero n [] h = refl
chunks_of-concat zero n (x ∷ l) h = absurd (omega arith)
chunks_of-concat (suc fuel) n [] h = refl
chunks_of-concat (suc fuel) n (x ∷ l) h =
    rw (chunks_of-concat fuel n (drop (suc n) (x ∷ l)) (omega (arith, length-drop {0} n l)))
      (take-append-drop (suc n) (x ∷ l))

IsBatch : {A : Type 0} → ℕ → List A → Type 0
IsBatch n c = (1 ≤ length c) × (length c ≤ n)

chunks_of-IsBatch :
    {A : Type 0} (fuel n : ℕ) (l : List A) → All (IsBatch (suc n)) (chunks_of fuel (suc n) l)
unfolding chunks_of IsBatch
chunks_of-IsBatch zero n l = tt
chunks_of-IsBatch (suc fuel) n [] = tt
chunks_of-IsBatch (suc fuel) n (x ∷ l) = (
  (omega (arith, length-take {0} n l), omega (arith, length-take {0} n l)),
  chunks_of-IsBatch fuel n (drop n l),
)

-- For a positive batch size the chunks, joined in order, are the list, and each chunk has at least
-- one element and at most the batch size.
get_chunks-partition :
    {A : Type 0} (n : ℕ) (l : List A)
    → (cs : List (List A)) × (get_chunks l (pos (suc n)) ≡ ok cs)
      × (concat cs ≡ l)
      × All (λ c. (1 ≤ length c) × (length c ≤ suc n)) cs
unfolding get_chunks IsBatch
get_chunks-partition n l = (
  chunks_of (length l) (suc n) l,
  refl,
  chunks_of-concat (length l) n l (omega arith),
  chunks_of-IsBatch (length l) n l,
)
