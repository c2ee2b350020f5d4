-- ===== src/Types/Article/Limits.antt =====
-- What the two validations accept, stated by the limits alone.
use portfolio_server.Prelude.{
  ℕ, ◌≤◌, ◌≡◌, ◌↔◌, Text, len, Option, none, some, List, [], ◌∷◌, ok, length, All, arith,
}
use portfolio_server.Types.Article.{
  ArticleSection, markdown, carousel, ArticleForm, ArticleEditRequest, validate_section,
  validate_each, check_sections, check_field, validate_form, validate_edit, check_option_sections,
}

abbrev pub SectionFits : ArticleSection → Type 0
SectionFits (markdown content) = len content ≤ 20000
SectionFits (carousel label slides) = length slides ≤ 20

pub record SectionsFit (sections : List ArticleSection) : Type 0 where
  pub some_section : 1 ≤ length sections
  pub few_sections : length sections ≤ 50
  pub each : All SectionFits sections

-- A text that is there has at most `n` bytes.
abbrev pub OptionFits : ℕ → Option Text → Type 0
OptionFits n none = Unit
OptionFits n (some t) = len t ≤ n

abbrev pub OptionSectionsFit : Option (List ArticleSection) → Type 0
OptionSectionsFit none = Unit
OptionSectionsFit (some sections) = SectionsFit sections

pub record FormFits (f : ArticleForm) : Type 0 where
  pub title : len f.title ≤ 200
  pub excerpt : len f.excerpt ≤ 1000
  pub author : len f.author ≤ 100
  pub sections : SectionsFit f.sections

pub record EditFits (r : ArticleEditRequest) : Type 0 where
  pub title : OptionFits 200 r.title
  pub excerpt : OptionFits 1000 r.excerpt
  pub author : OptionFits 100 r.author
  pub sections : OptionSectionsFit r.sections

validate_section_iff : (s : ArticleSection) → (validate_section s ≡ ok tt) ↔ SectionFits s
unfolding validate_section
validate_section_iff (markdown content) = ground arith
validate_section_iff (carousel label slides) = ground arith

validate_each_iff :
    (sections : List ArticleSection) → (validate_each sections ≡ ok tt) ↔ All SectionFits sections
unfolding validate_each
validate_each_iff [] = ground arith
validate_each_iff (s ∷ rest) = ground (arith, validate_section_iff s, validate_each_iff rest)

check_sections_iff :
    (sections : List ArticleSection) → (check_sections sections ≡ ok tt) ↔ SectionsFit sections
unfolding check_sections
check_sections_iff [] = ground arith
check_sections_iff (s ∷ rest) = ground (arith, validate_each_iff (s ∷ rest))

check_option_sections_iff :
    (sections : Option (List ArticleSection))
    → (check_option_sections sections ≡ ok tt) ↔ OptionSectionsFit sections
unfolding check_option_sections
check_option_sections_iff none = ground arith
check_option_sections_iff (some sections) = check_sections_iff sections

-- A new article is accepted exactly when its title has at most 200 bytes, its excerpt at most 1000,
-- its author at most 100, and it has 1 to 50 sections, each markdown section of at most 20000 bytes
-- and each carousel of at most 20 slides.
pub validate_form_iff : (f : ArticleForm) → (validate_form f ≡ ok tt) ↔ FormFits f
unfolding validate_form check_field
validate_form_iff f = ground (arith, check_sections_iff f.sections)

-- An edit is accepted exactly when every field that it gives keeps the limit of a new article.
pub validate_edit_iff : (r : ArticleEditRequest) → (validate_edit r ≡ ok tt) ↔ EditFits r
unfolding validate_edit check_field
validate_edit_iff r = ground (arith, check_option_sections_iff r.sections)
