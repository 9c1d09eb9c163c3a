-- ===== src/Plugins/Answerers/Laws.antt =====
-- answerers/_core.py: `ask` after `register`.
use opencode_optimised_tooli.Prelude.{
  Bool, Bool-cases, Dict, List, Option, String, [], ap, append-nil, append_assoc, false,
  if◌then◌else◌, inl, inr, insert, lookup, lookup-insert, map, none, refl, snoc, some, sym, true,
  ◌++◌, ◌==◌, ◌∙◌, ◌∷◌, ◌≡◌, list_eq, nat_eq, pair_eq, string_eq,
}
use opencode_optimised_tooli.Plugins.Storage.{split, first_word}
use opencode_optimised_tooli.Plugins.Answerers.{
  Answerer, AnswerStorage, or_nothing, append_by, register, mark, ask_all, ask_keyword, ask,
}

-- How often an answerer names a keyword, so many copies of a list.
pub copies {ℓ} : {A : Type ℓ} → String → List String → List A → List A
copies keyword [] l = []
copies keyword (k ∷ keywords) l = (if k == keyword then l else []) ++ copies keyword keywords l

or_nothing-if :
    (b : Bool) (l : List Answerer) (o : Option (List Answerer))
    → or_nothing (if b then some l else o) ≡ (if b then l else or_nothing o)
or_nothing-if true l o = refl
or_nothing-if false l o = refl

-- One keyword, for the answerers of another or of the same.
add_keyword :
    (k keyword : String) (answerer : Answerer) (rest : List Answerer)
    (d : Dict String (List Answerer))
    → (if k == keyword
          then snoc (or_nothing (lookup k d)) answerer
          else or_nothing (lookup keyword d))
        ++ rest
      ≡ or_nothing (lookup keyword d) ++ ((if k == keyword then answerer ∷ [] else []) ++ rest)
add_keyword k keyword answerer rest d = elim (Bool-cases (k == keyword)) [
  | inl same ↦ rw same (
      append_assoc (or_nothing (lookup k d)) (answerer ∷ []) rest
      ∙ ap (λ x. or_nothing (lookup x d) ++ answerer ∷ rest) ((string_eq.eqb_iff k keyword).0 same))
  | inr apart ↦ rw apart refl
]

lookup-append_by :
    (keyword : String) (answerer : Answerer) (keywords : List String)
    (d : Dict String (List Answerer))
    → or_nothing (lookup keyword (append_by answerer keywords d))
      ≡ or_nothing (lookup keyword d) ++ copies keyword keywords (answerer ∷ [])
unfolding append_by copies
lookup-append_by keyword answerer [] d = sym (append-nil (or_nothing (lookup keyword d)))
lookup-append_by keyword answerer (k ∷ keywords) d =
    let l = snoc (or_nothing (lookup k d)) answerer in
    let rest = copies keyword keywords (answerer ∷ []) in
    lookup-append_by keyword answerer keywords (insert k l d)
    ∙ ap (λ o. or_nothing o ++ rest) (lookup-insert k keyword l d)
    ∙ ap (λ m. m ++ rest) (or_nothing-if (k == keyword) l (lookup keyword d))
    ∙ add_keyword k keyword answerer rest d

module _ (keyword query : String) where
  ask_all-append :
      (l m : List Answerer)
      → ask_all keyword query (l ++ m) ≡ ask_all keyword query l ++ ask_all keyword query m
  unfolding ask_all
  ask_all-append [] m = refl
  ask_all-append (a ∷ l) m =
      ap (λ r. map (mark keyword) (a.answer query) ++ r) (ask_all-append l m)
      ∙ sym (
          append_assoc (map (mark keyword) (a.answer query)) (ask_all keyword query l)
            (ask_all keyword query m))

  ask_all-copies :
      (keywords : List String) (a : Answerer)
      → ask_all keyword query (copies keyword keywords (a ∷ []))
        ≡ copies keyword keywords (map (mark keyword) (a.answer query))
  unfolding ask_all copies
  ask_all-copies [] a = refl
  ask_all-copies (k ∷ keywords) a = elim (Bool-cases (k == keyword)) [
    | inl same ↦
        rw same (ap (λ r. map (mark keyword) (a.answer query) ++ r) (ask_all-copies keywords a))
    | inr apart ↦ rw apart (ask_all-copies keywords a)
  ]

-- A query without words has no answers. For the first word of a query, `ask` of a storage in which
-- an answerer has been registered yields what it yielded before and then the answers of the new
-- answerer, marked with the word, as often as the word is among its keywords.
pub ask-register :
    (query : String) (answerer : Answerer) (storage : AnswerStorage)
    → (first_word (split query) ≡ none → ask query (register answerer storage) ≡ [])
      × ((keyword : String)
          → first_word (split query) ≡ some keyword
          → ask query (register answerer storage)
            ≡ ask query storage
              ++ copies keyword answerer.keywords (map (mark keyword) (answerer.answer query)))
unfolding ask register
ask-register query answerer storage = (
  λ nothing. ap (λ o. ask_keyword o query (register answerer storage)) nothing,
  λ keyword first.
      ap (λ o. ask_keyword o query (register answerer storage)) first
      ∙ ap (ask_all keyword query)
          (lookup-append_by keyword answerer answerer.keywords storage.by_keyword)
      ∙ ask_all-append keyword query (or_nothing (lookup keyword storage.by_keyword))
          (copies keyword answerer.keywords (answerer ∷ []))
      ∙ ap (λ l. ask_all keyword query (or_nothing (lookup keyword storage.by_keyword)) ++ l)
          (ask_all-copies keyword query answerer.keywords answerer)
      ∙ ap
          (λ o.
            ask_keyword o query storage
            ++ copies keyword answerer.keywords (map (mark keyword) (answerer.answer query)))
          (sym first),
)
