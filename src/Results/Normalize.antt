-- ===== src/Results/Normalize.antt =====
-- result_types/_base.py: `normalize_result_fields`, run on every result before it is merged. (The
-- date fields are left out.)
pub mod Laws
use mathlib.Core.Option
use opencode_optimised_tooli.Prelude.{
  Bool, Option, String, Text, [], add_new, codes, false, has_prefix, if◌then◌else◌, is_empty, map,
  none, some, strip, ℕ, ◌==◌, ◌||◌, ◌∷◌, list_eq, nat_eq, pair_eq, string_eq, List,
}
use opencode_optimised_tooli.Results.Types.{MainResult, ParsedUrl}
use opencode_optimised_tooli.Results.Infobox.{Infobox, Link}

-- urllib.parse and the codec "idna": `none` is a ValueError or a UnicodeError.
pub record UrlLib : Type 0 where
  pub urlparse : String → Option ParsedUrl
  pub geturl : ParsedUrl → String
  pub idna : String → Option String

-- `( |\t|\n)`
abbrev pub is_blank : ℕ → Bool
is_blank c = (c == b' ') || ((c == 9) || (c == 10))

-- `WHITESPACE_REGEX.sub(" ", s)`; the flag says that the character before was blank.
unfoldable pub squeeze : Bool → Text → Text
squeeze after_blank [] = []
squeeze after_blank (c ∷ s) =
    let here = is_blank c in
    let rest = squeeze here s in
    if here then (if after_blank then rest else b' ' ∷ rest) else c ∷ rest

unfoldable pub clean_text : Text → Text
clean_text s = strip (squeeze false s)

abbrev pub default_scheme : Text → Text
default_scheme s = if is_empty s then codes "http" else s

module _ {F : Type 0} where
  -- `_normalize_text_fields`
  unfoldable pub normalize_text : MainResult F → MainResult F
  normalize_text r =
      let title = clean_text r.title in
      let content = clean_text r.content in
      record r { title = title; content = if content == title then [] else content }

  -- `if self.engine: self.engines.add(self.engine)`
  unfoldable pub note_engine : MainResult F → MainResult F
  note_engine r = if r.engine == "" then r else record r { engines = add_new r.engine r.engines }

module _ (lib : UrlLib) where
  unfoldable pub decode_netloc : String → Option String
  decode_netloc netloc =
      if has_prefix (codes "xn--") (codes netloc) then lib.idna netloc else some netloc

  unfoldable pub parse_url_field : {F : Type 0} → MainResult F → Option (MainResult F)
  parse_url_field r = elim r.parsed_url [
    | some u ↦ some r
    | none ↦ elim r.url [
      | none ↦ some r
      | some url ↦
          if url == ""
          then some r
          else Option.map (λ u. record r { parsed_url = some u }) (lib.urlparse url)
    ]
  ]

  unfoldable pub write_url_field : {F : Type 0} → MainResult F → Option (MainResult F)
  unfolding decode_netloc
  write_url_field r = elim r.parsed_url [
    | none ↦ some r
    | some u ↦
        Option.map
          (λ netloc.
            let v : ParsedUrl = record u { netloc = netloc; scheme = default_scheme u.scheme } in
            record r { parsed_url = some v; url = some (lib.geturl v) })
          (decode_netloc u.netloc)
  ]

  -- `_normalize_url_fields` of a result that is no infobox.
  unfoldable pub normalize_url : {F : Type 0} → MainResult F → Option (MainResult F)
  unfolding parse_url_field write_url_field
  normalize_url r = elim (parse_url_field r) [ none ↦ none | some r' ↦ write_url_field r' ]

  unfoldable pub normalize_main : {F : Type 0} → MainResult F → Option (MainResult F)
  unfolding normalize_url normalize_text note_engine
  normalize_main r = Option.map (λ r'. note_engine (normalize_text r')) (normalize_url r)

  -- The URL with "http" where it has no scheme.
  unfoldable pub with_scheme : String → Option String
  with_scheme url =
      Option.map (λ u. lib.geturl (record u { scheme = default_scheme u.scheme }))
        (lib.urlparse url)

  unfoldable pub normalize_link : Link → Option Link
  unfolding with_scheme
  normalize_link item = elim item.url [
    | none ↦ some item
    | some url ↦
        if url == ""
        then some item
        else Option.map (λ url'. record item { url = some url' }) (with_scheme url)
  ]

  unfoldable pub normalize_links : List Link → Option (List Link)
  unfolding normalize_link
  normalize_links [] = some []
  normalize_links (item ∷ rest) =
      let rest' = normalize_links rest in
      elim (normalize_link item) [
        | none ↦ none
        | some item' ↦ Option.map (λ items. item' ∷ items) rest'
      ]

  unfoldable pub normalize_id : Option String → Option (Option String)
  unfolding with_scheme
  normalize_id none = some none
  normalize_id (some id) =
      if id == "" then some (some id) else Option.map (λ url. some url) (with_scheme id)

  -- The infobox part of `_normalize_url_fields`.
  unfoldable pub normalize_infobox : Infobox → Option Infobox
  unfolding normalize_links normalize_id
  normalize_infobox box = elim (normalize_links box.urls) [
    | none ↦ none
    | some urls ↦ Option.map (λ id. record box { urls = urls; id = id }) (normalize_id box.id)
  ]
