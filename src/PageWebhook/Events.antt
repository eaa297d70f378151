-- ===== src/PageWebhook/Events.antt =====
-- app/routers/comments.py: the comments that the payload of a webhook reports. HMAC, JSON and the
-- reading of dates come from Python's library, as the parameter `web`.
use omni_flow.Prelude.{
  String, Option, none, some, List, [], ◌∷◌, ◌++◌, ◌==◌, string_eq, ◌||◌, not, if◌then◌else◌,
}
use omni_flow.Json.Doc.{
  Doc, num, fraction, text, Fields, end, get, truthy, object_items, as_object, as_text, is_text,
  is_null,
}
use omni_flow.TextOps.{TextOps}
use omni_flow.Slugs.{first_chars}
use omni_flow.Store.{Moment}
use omni_flow.Store.Comments.{CommentInput}

-- What is used of Python's library. `from_unix` is `none` where the number is out of range, and
-- `digits` is `int(s)` for a text of digits; `show` is `str(v)`.
pub record WebOps : Type 0 where
  pub ops : TextOps
  pub show : Doc → String
  pub from_unix : Doc → Option Moment
  pub digits : String → Option Doc
  pub from_iso : String → Option Moment
  pub hmac_hex : String → String → String
  pub loads : String → Option Doc

module _ (web : WebOps) where
  open web use {show, from_unix, digits, from_iso}

  -- `_text`
  unfoldable pub text_of : Doc → Option String
  text_of v = if is_null v || is_text v "" then none else some (show v)

  -- `_created_time`; the outer `none` is an exception.
  abbrev pub unix_time : Doc → Option (Option Moment)
  unix_time v = elim (from_unix v) [ none ↦ none | some at ↦ some (some at) ]

  unfoldable pub created_time : Doc → Option (Option Moment)
  created_time (num i) = unix_time (num i)
  created_time (fraction s) = unix_time (fraction s)
  created_time (text s) =
      if s == ""
      then some none
      else elim (digits s) [ some n ↦ unix_time n | none ↦ some (from_iso s) ]
  created_time _ = some none

  abbrev pub sender_of : Fields → Fields
  sender_of value = elim (as_object (get "from" value)) [ none ↦ end | some sender ↦ sender ]

  abbrev pub verb_of : Doc → String
  verb_of v = first_chars 20 (if truthy v then show v else "add")

  abbrev pub comment_of : String → String → Fields → Option Moment → CommentInput
  comment_of page comment value at = record {
    page_id = page;
    comment_id = comment;
    post_id = text_of (get "post_id" value);
    parent_id = text_of (get "parent_id" value);
    from_id = text_of (get "id" (sender_of value));
    from_name = text_of (get "name" (sender_of value));
    message = as_text (get "message" value);
    verb = verb_of (get "verb" value);
    created_time = at;
  }

  -- The result of a loop body that may raise, before those of the rest.
  abbrev pub and_then :
      Option (List (String × CommentInput))
      → Option (List (String × CommentInput))
      → Option (List (String × CommentInput))
  and_then none rest = none
  and_then (some found) none = none
  and_then (some found) (some rest) = some (found ++ rest)

  abbrev pub timed :
      String → String → Fields → Option (Option Moment) → Option (List (String × CommentInput))
  timed page comment value none = none
  timed page comment value (some at) = some ((page, comment_of page comment value at) ∷ [])

  -- A `value` of a page and a comment that are named.
  abbrev pub named : Option String → Option String → Fields → Option (List (String × CommentInput))
  named none _ value = some []
  named (some page) none value = some []
  named (some page) (some comment) value =
      if page == "" || comment == ""
      then some []
      else timed page comment value (created_time (get "created_time" value))

  abbrev pub value_events : Option String → Option Fields → Option (List (String × CommentInput))
  value_events page none = some []
  value_events page (some value) =
      if not (is_text (get "item" value) "comment")
      then some []
      else named page (text_of (get "comment_id" value)) value

  -- One entry of `changes`.
  unfoldable pub change_events : Option String → Fields → Option (List (String × CommentInput))
  unfolding created_time text_of
  change_events page change =
      let kind = get "field" change in
      if not (is_null kind || is_text kind "feed")
      then some []
      else value_events page (as_object (get "value" change))

  unfoldable pub all_changes : Option String → List Fields → Option (List (String × CommentInput))
  unfolding change_events
  all_changes page [] = some []
  all_changes page (change ∷ changes) =
      and_then (change_events page change) (all_changes page changes)

  abbrev pub entry_changes :
      Option String → Option (List Fields) → Option (List (String × CommentInput))
  entry_changes page none = none
  entry_changes page (some changes) = all_changes page changes

  unfoldable pub all_entries : List Fields → Option (List (String × CommentInput))
  unfolding all_changes text_of
  all_entries [] = some []
  all_entries (entry ∷ entries) =
      and_then (entry_changes (text_of (get "id" entry)) (object_items (get "changes" entry)))
        (all_entries entries)

  -- `list(iter_comment_events(payload))`, or `none` where an exception ends it.
  unfoldable pub iter_comment_events : Fields → Option (List (String × CommentInput))
  unfolding all_entries
  iter_comment_events payload =
      let kind = get "object" payload in
      if not (is_null kind || is_text kind "page")
      then some []
      else elim (object_items (get "entry" payload)) [
        | none ↦ none
        | some entries ↦ all_entries entries
      ]
