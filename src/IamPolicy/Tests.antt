-- ===== src/IamPolicy/Tests.antt =====
-- Tests of the policies of a service in memory, and the theorems at its runs.
use community_aws.Base.{
  String, ◌≡◌, refl, ap, inl, inr, Bool, true, false, not, Option, none, some, List, [], ◌∷◌, arith,
  if◌then◌else◌, Bool-cases, contains, ◌==◌, ==_refl, String-discrete, string_eq, nat_eq, bool_eq,
  option_eq, key_error, Result, ok, err, ok_inj,
}
use community_aws.IamPolicy.Client.{
  missing, Iam, IsIam, Kind, user_policy, role_policy, group_policy, put_policy, list_policies,
  get_policy, delete_policy, names_of,
}
use community_aws.IamPolicy.Policy.{
  present, text, Policy, Report, run, create, put, delete, matching, list_names, get_policy_text,
}
use community_aws.IamPolicy.Policy.Laws.Runs.{run_twice, run-listed}

abbrev Policies : Type 0
Policies = List (String × String)

abbrev find : String → Policies → Result String
find k [] = err (key_error k)
find k ((j, d) ∷ l) = if k == j then ok d else find k l

abbrev names : Policies → List String
names [] = []
names ((j, d) ∷ l) = j ∷ names l

abbrev without : String → Policies → Policies
without k [] = []
without k ((j, d) ∷ l) = if k == j then without k l else (j, d) ∷ without k l

abbrev memory : Iam
memory = record {
  World = Policies;
  Document = String;
  null = "null";
  list_user_policies = λ n w. ok (some (names w));
  list_role_policies = λ n w. ok (some (names w));
  list_group_policies = λ n w. ok (some (names w));
  get_user_policy = λ n k w. find k w;
  get_role_policy = λ n k w. find k w;
  get_group_policy = λ n k w. find k w;
  put_user_policy = λ n k d w. ok ((k, d) ∷ without k w);
  put_role_policy = λ n k d w. ok ((k, d) ∷ without k w);
  put_group_policy = λ n k d w. ok ((k, d) ∷ without k w);
  delete_user_policy = λ n k w. ok (without k w);
  delete_role_policy = λ n k w. ok (without k w);
  delete_group_policy = λ n k w. ok (without k w);
  dumps = λ d. d;
  loads = λ s. some s;
  open_file = λ path. missing;
  compare_policies = λ d e. not (d == e);
}

without_lem : (k : String) (w : Policies) → contains k (names (without k w)) ≡ false
without_lem k [] = refl
without_lem k ((j, d) ∷ l) = elim (Bool-cases (k == j)) [
  | inl same ↦ rw same (without_lem k l)
  | inr other ↦ rw (other, other) (without_lem k l)
]

listed :
    (k : String) (w w' : Policies) (l : Option (List String)) (d : String)
    → ◌≡◌ {A = Result Policies} (ok ((k, d) ∷ without k w)) (ok w')
    → ◌≡◌ {A = Result (Option (List String))} (ok (some (names w'))) (ok l)
    → contains k (names_of memory l) ≡ true
listed k w w' l d h e = rw (← ok_inj e, ← ok_inj h) (ground (arith, ==_refl k))

gone :
    (k : String) (w w' : Policies) (l : Option (List String))
    → ◌≡◌ {A = Result Policies} (ok (without k w)) (ok w')
    → ◌≡◌ {A = Result (Option (List String))} (ok (some (names w'))) (ok l)
    → contains k (names_of memory l) ≡ false
gone k w w' l h e = rw (← ok_inj e, ← ok_inj h) (without_lem k w)

read :
    (k : String) (w w' : Policies) (d e : String)
    → ◌≡◌ {A = Result Policies} (ok ((k, d) ∷ without k w)) (ok w')
    → find k w' ≡ ok e
    → some d ≡ some e
read k w w' d e h got = ap some (ok_inj (rw (← ok_inj h, ==_refl k) at got))

listed_as :
    (k : Kind) (n p t : String) (w w' : Policies) (l : Option (List String))
    → put_policy memory k n p t w ≡ ok w'
    → list_policies memory k n w' ≡ ok l
    → contains p (names_of memory l) ≡ true
unfolding put_policy list_policies
listed_as user_policy n p t w w' l = listed p w w' l t
listed_as role_policy n p t w w' l = listed p w w' l t
listed_as group_policy n p t w w' l = listed p w w' l t

read_as :
    (k : Kind) (n p d e : String) (w w' : Policies)
    → put_policy memory k n p d w ≡ ok w'
    → get_policy memory k n p w' ≡ ok e
    → some d ≡ some e
unfolding put_policy get_policy
read_as user_policy n p d e w w' = read p w w' d e
read_as role_policy n p d e w w' = read p w w' d e
read_as group_policy n p d e w w' = read p w w' d e

gone_as :
    (k : Kind) (n p : String) (w w' : Policies) (l : Option (List String))
    → delete_policy memory k n p w ≡ ok w'
    → list_policies memory k n w' ≡ ok l
    → contains p (names_of memory l) ≡ false
unfolding delete_policy list_policies
gone_as user_policy n p w w' l = gone p w w' l
gone_as role_policy n p w w' l = gone p w w' l
gone_as group_policy n p w w' l = gone p w w' l

memory-IsIam : IsIam memory
memory-IsIam = record {
  list-put = listed_as;
  get-put = read_as;
  loads-dumps = λ d. refl;
  list-delete = gone_as;
  compare-same = λ d. rw (==_refl d);
}

abbrev wanted : Policy memory
wanted = record {
  kind = role_policy;
  name = "web";
  policy_name = "read";
  policy_document = none;
  policy_json = some (text "allow");
  skip_duplicates = false;
  state = present;
  check_mode = false;
}

abbrev reported : Bool → List String → Report memory
reported b l = record { changed = b; type_name = "role"; name = "web"; policies = l }

first_run :
    run memory wanted (("write", "allow") ∷ [])
    ≡ ok (reported true ("read" ∷ "write" ∷ []), ("read", "allow") ∷ ("write", "allow") ∷ [])
unfolding run create put delete matching list_names get_policy_text put_policy list_policies
    get_policy String-discrete
first_run = refl

second_run :
    run memory wanted (("read", "allow") ∷ ("write", "allow") ∷ [])
    ≡ ok (reported false ("read" ∷ "write" ∷ []), ("read", "allow") ∷ ("write", "allow") ∷ [])
unfolding run create put delete matching list_names get_policy_text put_policy list_policies
    get_policy String-discrete
second_run = refl

checked_run :
    run memory (record wanted { check_mode = true }) (("write", "allow") ∷ [])
    ≡ ok (reported true ("write" ∷ []), ("write", "allow") ∷ [])
unfolding run create put delete matching list_names get_policy_text put_policy list_policies
    get_policy String-discrete
checked_run = refl

run_twice_example : ◌≡◌ {A = Bool} false false
run_twice_example =
    run_twice memory memory-IsIam wanted (("write", "allow") ∷ [])
      (("read", "allow") ∷ ("write", "allow") ∷ []) (("read", "allow") ∷ ("write", "allow") ∷ [])
      (reported true ("read" ∷ "write" ∷ [])) (reported false ("read" ∷ "write" ∷ [])) refl
      first_run second_run

run-listed_example : contains {A = String} "read" ("read" ∷ "write" ∷ []) ≡ true
run-listed_example =
    run-listed memory memory-IsIam wanted (("write", "allow") ∷ [])
      (("read", "allow") ∷ ("write", "allow") ∷ []) (reported true ("read" ∷ "write" ∷ [])) refl
      refl first_run
