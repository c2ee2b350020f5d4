-- ===== src/Types/Article.antt =====
-- src/types/article.rs: articles, their sections, and the requests that create and edit them.
pub mod Limits
use portfolio_server.Http.{Json}
use portfolio_server.Prelude.{
  ℕ, Text, text, len, ltb, Bool, Option, none, some, List, [], ◌∷◌, Result, ok, err, and_then,
  length, is_empty, ◌||◌, if◌then◌else◌,
}
use portfolio_server.Errors.Blog.{BlogError, validation_error}

pub record CarouselImage : Type 0 where
  pub src : Text
  pub alt : Option Text
  pub caption : Option Text

pub data ArticleSection : Type 0 where
  markdown : (content : Text) → ArticleSection
  carousel : (label : Text) (slides : List CarouselImage) → ArticleSection

abbrev done : Result (Unit {0}) BlogError
done = ok tt

abbrev invalid : Text → Result (Unit {0}) BlogError
invalid t = err (validation_error t)

-- `ArticleSection::validate`
unfoldable pub validate_section : ArticleSection → Result (Unit {0}) BlogError
validate_section (markdown content) =
    if ltb 20000 (len content) then invalid (text "Section content too large") else done
validate_section (carousel label slides) =
    if ltb 20 (length slides) then invalid (text "Too many carousel slides") else done

pub record ArticleRecord : Type 0 where
  pub post_id : ℕ
  pub title : Text
  pub slug : Text
  pub excerpt : Text
  pub sections : List ArticleSection
  pub author : Text
  pub published : Bool
  pub created_at : ℕ
  pub updated_at : ℕ

-- A row of the table `blog_posts`, its sections not yet decoded.
pub record ArticleRecordRaw : Type 0 where
  pub post_id : ℕ
  pub title : Text
  pub slug : Text
  pub excerpt : Text
  pub sections : Json
  pub author : Text
  pub published : Bool
  pub created_at : ℕ
  pub updated_at : ℕ

-- `TryFrom<ArticleRecordRaw>`, with the decoder of the sections for an argument.
unfoldable pub try_from_raw :
    (Json → Result (List ArticleSection) Text) → ArticleRecordRaw → Result ArticleRecord Text
try_from_raw decode raw = and_then (decode raw.sections) (λ sections. ok (record {
  post_id = raw.post_id;
  title = raw.title;
  slug = raw.slug;
  excerpt = raw.excerpt;
  sections = sections;
  author = raw.author;
  published = raw.published;
  created_at = raw.created_at;
  updated_at = raw.updated_at;
}))

pub record ArticleForm : Type 0 where
  pub title : Text
  pub excerpt : Text
  pub sections : List ArticleSection
  pub author : Text

pub record ArticleDeleteRequest : Type 0 where
  pub post_id : ℕ

pub record ArticlePublishRequest : Type 0 where
  pub post_id : ℕ
  pub published : Bool

pub record ArticleEditRequest : Type 0 where
  pub post_id : ℕ
  pub title : Option Text
  pub sections : Option (List ArticleSection)
  pub excerpt : Option Text
  pub author : Option Text

-- The names under which the two loops look at the fields.
pub data FieldName : Type 0 where
  title excerpt author : FieldName

-- One round of the loop over the fields.
unfoldable pub check_field : FieldName → Text → Result (Unit {0}) BlogError
check_field title value = if ltb 200 (len value) then invalid (text "Invalid title") else done
check_field excerpt value = if ltb 1000 (len value) then invalid (text "Invalid excerpt") else done
check_field author value = if ltb 100 (len value) then invalid (text "Invalid author") else done

unfoldable pub check_fields : List (FieldName × Text) → Result (Unit {0}) BlogError
check_fields [] = done
check_fields ((name, value) ∷ rest) = and_then (check_field name value) (λ _. check_fields rest)

unfoldable pub check_options : List (FieldName × Option Text) → Result (Unit {0}) BlogError
check_options [] = done
check_options ((name, none) ∷ rest) = check_options rest
check_options ((name, some value) ∷ rest) =
    and_then (check_field name value) (λ _. check_options rest)

unfoldable pub validate_each : List ArticleSection → Result (Unit {0}) BlogError
validate_each [] = done
validate_each (s ∷ rest) = and_then (validate_section s) (λ _. validate_each rest)

unfoldable pub check_sections : List ArticleSection → Result (Unit {0}) BlogError
check_sections sections =
    if is_empty sections || ltb 50 (length sections)
    then invalid (text "Invalid section count")
    else validate_each sections

-- `if let Some(sections) = &self.sections`
unfoldable pub check_option_sections : Option (List ArticleSection) → Result (Unit {0}) BlogError
check_option_sections none = done
check_option_sections (some sections) = check_sections sections

-- `ArticleForm::validate`
unfoldable pub validate_form : ArticleForm → Result (Unit {0}) BlogError
unfolding check_fields
validate_form f =
    and_then (check_fields ((title, f.title) ∷ (excerpt, f.excerpt) ∷ (author, f.author) ∷ []))
      (λ _. check_sections f.sections)

-- `ArticleEditRequest::validate`
unfoldable pub validate_edit : ArticleEditRequest → Result (Unit {0}) BlogError
unfolding check_options
validate_edit r =
    and_then (check_options ((title, r.title) ∷ (excerpt, r.excerpt) ∷ (author, r.author) ∷ []))
      (λ _. check_option_sections r.sections)
