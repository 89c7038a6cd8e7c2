-- ===== src/Worker/Backends/Outcomes.antt =====
-- What the calls on one and on several backends report, and which instances they change.
use mathlib.Core.List.{Perm, Mem, not-mem-nil, mem-cons, mem-cons_self, mem-cons_of_mem}
use mathlib.Core.List.Perm
use mathlib.Core.Bool.{Bool-set}
use mathlib.Core.Logic.Or
use directdnsonly.Base.{
  ◌↔◌, sym, ◌∙◌, all_of, ℕ, String, ◌≡◌, refl, ap, Bool, true, false, not, ◌&&◌, ◌||◌, Option, none,
  some, List, [], ◌∷◌, if◌then◌else◌, ◌==◌, string_eq, contains, All, arith,
}
use directdnsonly.Base.Exec.{Result, ok, raised}
use directdnsonly.Backend.{DnsBackend}
use directdnsonly.Worker.Backends.{
  verify_backend_record_count, reload, process_single_backend, delete_single_backend, on_each,
  put_back, failed_set, instance_after,
}

abbrev pub is_ok : {A : Type 0} → Result A → Bool
is_ok (ok a) = true
is_ok (raised e) = false

abbrev pub is_true : Result Bool → Bool
is_true (ok b) = b
is_true (raised e) = false

module _ {S : Type 0} (B : DnsBackend S) where
  -- Whatever the verification of record counts finds or raises, it returns.
  pub verify_backend_record_count_returns :
      (from_text : String → String → Option (List ℕ)) (zone_name zone_data : String) (s : S)
      → is_ok (verify_backend_record_count B from_text zone_name zone_data s).0 ≡ true
  unfolding verify_backend_record_count
  verify_backend_record_count_returns from_text zone_name zone_data s = ground arith

  pub process_single_backend-success :
      (from_text : String → String → Option (List ℕ)) (domains : List String)
      (domain zone_file : String) (s : S)
      → (process_single_backend B from_text domains domain zone_file s).0 ≡ (
          is_true (B.write_zone domain zone_file s).0
          && is_ok (reload B domains domain (B.write_zone domain zone_file s).1).0)
  unfolding process_single_backend
  process_single_backend-success from_text domains domain zone_file s = ground arith

  pub delete_single_backend-success :
      (domain : String) (remaining_domains : List String) (s : S)
      → (delete_single_backend B domain remaining_domains s).0 ≡ (
          is_true (B.delete_zone domain s).0
          && is_ok (reload B remaining_domains domain (B.delete_zone domain s).1).0)
  unfolding delete_single_backend
  delete_single_backend-success domain remaining_domains s = ground arith

-- Some result of the name is a failure.
abbrev pub any_failure : String → List (String × Bool) → Bool
any_failure n [] = false
any_failure n ((k, success) ∷ rs) = n == k && not success || any_failure n rs

pub contains-failed_set :
    (n : String) (rs : List (String × Bool)) → contains (failed_set rs) n ≡ any_failure n rs
unfolding failed_set
contains-failed_set n [] = refl
contains-failed_set n ((k, success) ∷ rs) =
    ground (arith, contains-failed_set n rs, contains-failed_set k rs)

mem-of-any_failure :
    (n : String) (rs : List (String × Bool)) → any_failure n rs ≡ true → Mem (n, false) rs
mem-of-any_failure n [] h = cc
mem-of-any_failure n ((k, true) ∷ rs) h = mem-cons_of_mem _ (mem-of-any_failure n rs (ground arith))
mem-of-any_failure n ((k, false) ∷ rs) h = elim (string_eq.dec n k) [
  | yes p ↦ rw p mem-cons_self
  | no p ↦ mem-cons_of_mem _ (mem-of-any_failure n rs (ground arith))
]

any_failure-of-mem :
    (n : String) (rs : List (String × Bool)) → Mem (n, false) rs → any_failure n rs ≡ true
any_failure-of-mem n [] m = absurd (not-mem-nil m)
any_failure-of-mem n ((k, success) ∷ rs) m =
    Or.elim (Bool-set _ _) (mem-cons.0 m)
      (λ e. ground (arith, ap (λ (p : String × Bool). p.0) e, ap (λ (p : String × Bool). p.1) e))
      (λ l. ground (arith, any_failure-of-mem n rs l))

-- The order in which threads finish does not change which names have failed.
pub any_failure-perm :
    (n : String) {rs qs : List (String × Bool)} → Perm rs qs → any_failure n rs ≡ any_failure n qs
any_failure-perm n {rs} {qs} p = ground (
  arith,
  λ (h : any_failure n rs ≡ true).
      any_failure-of-mem n qs ((Perm.mem_iff p).0 (mem-of-any_failure n rs h)),
  λ (h : any_failure n qs ≡ true).
      any_failure-of-mem n rs ((Perm.mem_iff p).1 (mem-of-any_failure n qs h)),
)

-- `all(results)`
abbrev pub all_true : List (String × Bool) → Bool
all_true = all_of (λ r. r.1)

any_failure-of-all_true :
    (n : String) (rs : List (String × Bool)) → all_true rs ≡ true → any_failure n rs ≡ false
any_failure-of-all_true n [] h = refl
any_failure-of-all_true n ((k, b) ∷ rs) h = ground (arith, any_failure-of-all_true n rs)

all_true-of-any_failure :
    (rs : List (String × Bool)) → ((n : String) → any_failure n rs ≡ false) → all_true rs ≡ true
all_true-of-any_failure [] h = refl
all_true-of-any_failure ((k, b) ∷ rs) h =
    ground (arith, h k, all_true-of-any_failure rs (λ n. ground (arith, h n)))

-- The order in which threads finish does not change whether all succeeded.
pub all_true-perm : {rs qs : List (String × Bool)} → Perm rs qs → all_true rs ≡ all_true qs
all_true-perm {rs} {qs} p = ground (
  arith,
  λ (h : all_true rs ≡ true).
      all_true-of-any_failure qs (λ n. sym (any_failure-perm n p) ∙ any_failure-of-all_true n rs h),
  λ (h : all_true qs ≡ true).
      all_true-of-any_failure rs (λ n. any_failure-perm n p ∙ any_failure-of-all_true n qs h),
)

module _ {S : Type 0} (f : S → Bool × S) where
  -- Some instance of the name reports failure.
  abbrev pub reports_failure : String → List (String × S) → Bool
  reports_failure n [] = false
  reports_failure n ((k, s) ∷ rest) = n == k && not (f s).0 || reports_failure n rest

  pub any_failure-on_each :
      (n : String) (bs : List (String × S)) → any_failure n (on_each f bs).0 ≡ reports_failure n bs
  unfolding on_each
  any_failure-on_each n [] = refl
  any_failure-on_each n ((k, s) ∷ rest) = ground (arith, any_failure-on_each n rest)

module _ {S : Type 0} where
  -- The instance that a registry holds under a name.
  abbrev pub instance_of : String → List (String × S) → Option S
  instance_of n [] = none
  instance_of n ((k, s) ∷ rest) = if n == k then some s else instance_of n rest

  abbrev pub apply_to : (S → Bool × S) → Option S → Option S → Option S
  apply_to f none old = old
  apply_to f (some s) none = none
  apply_to f (some s) (some old) = some (f s).1

  instance_after-on_each :
      (f : S → Bool × S) (n : String) (s : S) (bs : List (String × S))
      → instance_after n s (on_each f bs).1
        ≡ (elim (instance_of n bs) [ none ↦ s | some t ↦ (f t).1 ])
  unfolding on_each
  instance_after-on_each f n s [] = refl
  instance_after-on_each f n s ((k, t) ∷ rest) = ground (arith, instance_after-on_each f n s rest)

  -- After the calls a target holds the instance that its call left, and any other name its own.
  pub instance_of-put_back :
      (f : S → Bool × S) (n : String) (bs registry : List (String × S))
      → instance_of n (put_back (on_each f bs).1 registry)
        ≡ apply_to f (instance_of n bs) (instance_of n registry)
  unfolding put_back on_each
  instance_of-put_back f n bs [] = ground arith
  instance_of-put_back f n bs ((k, s) ∷ rest) =
      ground (arith, instance_of-put_back f n bs rest, instance_after-on_each f k s bs)

-- Every call succeeds.
abbrev pub AllSucceed : {S : Type 0} → (S → Bool × S) → List (String × S) → Type 0
AllSucceed f bs = All (λ b. (f b.1).0 ≡ true) bs

pub all_true-on_each :
    {S : Type 0} (f : S → Bool × S) (bs : List (String × S))
    → (all_true (on_each f bs).0 ≡ true) ↔ AllSucceed f bs
unfolding on_each
all_true-on_each f [] = (λ h. tt, λ h. refl)
all_true-on_each f ((k, s) ∷ rest) = ground (arith, all_true-on_each f rest)
