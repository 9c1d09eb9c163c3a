-- ===== src/WebAdapter/Types.antt =====
-- webadapter.py: what its functions read, and the exceptions they raise.
use opencode_optimised_tooli.Prelude.{
  Bool, Dict, List, Option, Text, false, if◌then◌else◌, refl, true, ℕ, ◌≡◌, list_eq, nat_eq,
  pair_eq, string_eq,
}
use opencode_optimised_tooli.Query.Types.{EngineRef}

-- A `SearxParameterException` has the name and the value of the parameter.
pub data Fault : Type 0 where
  parameter_error : Text → Text → Fault
  value_error key_error index_error : Fault

pub data Result {ℓ} (A : Type ℓ) : Type ℓ where
  ok : A → Result A
  fault : Fault → Result A

-- `P` holds of the value, if there is one.
abbrev pub Gives {ℓ μ} : {A : Type ℓ} → (A → Type μ) → Result A → Type μ
Gives P (ok a) = P a
Gives P (fault e) = Unit

pub Gives-if {ℓ μ} :
    {A : Type ℓ} (P : A → Type μ) (b : Bool) (m n : Result A)
    → Gives P m
    → Gives P n
    → Gives P (if b then m else n)
Gives-if P true m n h k = h
Gives-if P false m n h k = k

module _ {ℓ κ} {A : Type ℓ} {B : Type κ} where
  infixl 5 ◌>>=◌
  abbrev pub ◌>>=◌ : Result A → (A → Result B) → Result B
  ok a >>= f = f a
  fault e >>= f = fault e

  pub Gives-bind {μ} :
      (P : B → Type μ) (m : Result A) (f : A → Result B)
      → ((a : A) → m ≡ ok a → Gives P (f a))
      → Gives P (m >>= f)
  Gives-bind P (ok a) f h = h a refl
  Gives-bind P (fault e) f h = tt

-- Python's floats, as far as timeouts use them; `parse` is `float(s)`.
pub record Seconds : Type 1 where
  pub T : Type 0
  pub of_milliseconds : ℕ → T
  pub parse : Text → Option T

-- The form's fields, in their order.
abbrev pub Form : Type 0
Form = Dict Text Text

-- What is read of `Preferences`: the locked names, the values of three settings, the disabled
-- engines, the elements of the setting `tokens`, and the locale tag of the client.
pub record Preferences : Type 0 where
  pub lock : List Text
  pub language : Text
  pub safesearch : ℕ
  pub categories : List Text
  pub disabled_engines : List EngineRef
  pub tokens : List Text
  pub client_locale_tag : Option Text

-- `models.SearchQuery`
pub record SearchQuery (T : Type 0) : Type 0 where
  pub query : Text
  pub engineref_list : List EngineRef
  pub lang : Text
  pub safesearch : ℕ
  pub pageno : ℕ
  pub time_range : Option Text
  pub timeout_limit : Option T
  pub external_bang : Option Text
  pub engine_data : Dict Text (Dict Text Text)
  pub redirect_to_first_result : Bool
