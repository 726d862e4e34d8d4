-- ===== src/Workflow/Errors.antt =====
-- When a part of the parser (backend/src/services/workflow_parse.rs) reports no error.
use overup.Prelude.{
  ◌≡◌, ◌≢◌, refl, sym, ◌∙◌, Bool, true, false, ◌||◌, inl, inr, List, [], ◌∷◌, ◌++◌, any, Bool-cases,
  arith, All, Text,
}
use overup.Workflow.{Diagnostic, error, is_error, errors, status, say_if}

pub record HasNoError (ds : List Diagnostic) : Type 0 where
  pub none_is : any is_error ds ≡ false

any-append :
    {A : Type 0} (p : A → Bool) (xs ys : List A) → any p (xs ++ ys) ≡ (any p xs || any p ys)
any-append p [] ys = refl
any-append p (x ∷ xs) ys = ground (arith, any-append p xs ys)

or_false : (a b : Bool) → (a || b) ≡ false → (a ≡ false) × (b ≡ false)
or_false a b e = ground arith

pub HasNoError-append :
    (xs ys : List Diagnostic) → HasNoError (xs ++ ys) → HasNoError xs × HasNoError ys
HasNoError-append xs ys e =
    let (a, b) =
      or_false (any is_error xs) (any is_error ys) (sym (any-append is_error xs ys) ∙ e.none_is) in
    (record { none_is = a }, record { none_is = b })

-- An error that is reported under a test is not where the test fails.
pub HasNoError-say_if :
    (test : Bool) (message path : Text)
    → HasNoError (say_if test error message path).1
    → test ≡ false
unfolding say_if
HasNoError-say_if true message path e = cc e.none_is
HasNoError-say_if false message path e = refl

-- A list of errors without an error is empty.
pub HasNoError-nil :
    (ds : List Diagnostic) → All (λ d. is_error d ≡ true) ds → HasNoError ds → ds ≡ []
HasNoError-nil [] h e = refl
HasNoError-nil (d ∷ ds) (h, hs) e =
    cc (sym h ∙ (or_false (is_error d) (any is_error ds) e.none_is).0)

pub HasNoError-status : (ds : List Diagnostic) → status ds ≢ errors → HasNoError ds
unfolding status
HasNoError-status ds ne = elim (Bool-cases (any is_error ds)) [
  | inl bad ↦ absurd (ne (rw bad refl))
  | inr good ↦ record { none_is = good }
]

-- What is said as an error is one.
pub HasNoError-said :
    (d : Diagnostic) (ds : List Diagnostic) → is_error d ≡ true → ¬ HasNoError (d ∷ ds)
HasNoError-said d ds bad e = cc (sym bad ∙ (or_false (is_error d) (any is_error ds) e.none_is).0)
