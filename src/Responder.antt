-- ===== src/Responder.antt =====
-- saphir/src/responder.rs: what the types that can answer do to the builder of the response. A responder
-- is its `respond_with_builder`; `C` is the context that it may read.
pub mod Statuses
use saphir.Base.{ℕ, ◌%◌, Bool, List, [], ◌∷◌, Option, none, some, Result, ok, err}
use saphir.Text.{Str, codes}
use saphir.Response.{Builder, RawCall, status, status_if_not_set, header, body, encoded}

abbrev pub Respond : Type 0 → Type 0 → Type 0 → Type 0 → Type 0
Respond Ext Jar Content C = Builder Ext Jar Content → C → Builder Ext Jar Content

module _ {Ext Jar Content C : Type 0} where
  -- `StatusCode`, `()` and `hyper::Error`
  unfoldable pub respond_status : ℕ → Respond Ext Jar Content C
  respond_status code builder ctx = status code builder

  unfoldable pub respond_unit : Respond Ext Jar Content C
  respond_unit builder ctx = status 200 builder

  unfoldable pub respond_hyper_error : Respond Ext Jar Content C
  respond_hyper_error builder ctx = status 500 builder

  -- `self as u16` of the integers: the low bits of the number
  unfoldable pub respond_number : ℕ → Respond Ext Jar Content C
  respond_number bits builder ctx = status (bits % 65536) builder

  -- The bodies, and the texts with their content type
  unfoldable pub respond_body : Content → Respond Ext Jar Content C
  respond_body content builder ctx = body content builder

  unfoldable pub respond_plain : Content → Respond Ext Jar Content C
  respond_plain content builder ctx =
      body content (header (codes "content-type") (codes "text/plain") builder)

  -- Vectors and slices, and tuples
  unfoldable pub respond_all : List (Respond Ext Jar Content C) → Respond Ext Jar Content C
  respond_all [] builder ctx = builder
  respond_all (r ∷ rest) builder ctx = respond_all rest (r builder ctx) ctx

  unfoldable pub respond_pair :
      Respond Ext Jar Content C → Respond Ext Jar Content C → Respond Ext Jar Content C
  respond_pair a b builder ctx = b (a builder ctx) ctx

  unfoldable pub respond_option : Option (Respond Ext Jar Content C) → Respond Ext Jar Content C
  respond_option (some r) builder ctx = status_if_not_set 200 (r builder ctx)
  respond_option none builder ctx = status_if_not_set 404 builder

  unfoldable pub respond_result :
      Result (Respond Ext Jar Content C) (Respond Ext Jar Content C) → Respond Ext Jar Content C
  respond_result (ok r) builder ctx = status_if_not_set 200 (r builder ctx)
  respond_result (err r) builder ctx = status_if_not_set 500 (r builder ctx)

  unfoldable pub respond_builder : Builder Ext Jar Content → Respond Ext Jar Content C
  respond_builder own builder ctx = own

  -- `Json` and `Form`, with the text that answers where the value cannot be encoded
  unfoldable pub respond_encoded :
      {X : Type 0}
      → (List (RawCall Ext) → Str → Option Bool)
      → (Str → Option Str)
      → Str
      → Result Content X
      → Content
      → Respond Ext Jar Content C
  respond_encoded has_header from_str content_type value unable builder ctx =
      elim (encoded has_header from_str content_type value builder) [
        | ok b ↦ b
        | err failed ↦ body unable (status 500 failed.0)
      ]

  -- `dyn_respond` takes the responder: the second time there is none, and the status is 500.
  unfoldable pub dyn_respond :
      Option (Respond Ext Jar Content C)
      → Builder Ext Jar Content
      → C
      → Option (Respond Ext Jar Content C) × Builder Ext Jar Content
  dyn_respond (some r) builder ctx = (none, respond_result (ok r) builder ctx)
  dyn_respond none builder ctx = (none, respond_result (err (respond_status 500)) builder ctx)
