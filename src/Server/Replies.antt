-- ===== src/Server/Replies.antt =====
-- internal/server: what a handler answers. A page or a fragment is the data it is rendered from.
use ai_model_scheduler.Base.{err, ok, Option, Result, ℕ, String, none, some}

-- The status, and the value of the body or the error.
abbrev pub Reply : Type 0 → Type 0 → Type 0
Reply E A = ℕ × Result E A

-- The answers of the handlers for the pages: a page with its data, no content, a redirect to a path,
-- or http.Error.
pub data View (A : Type 0) : Type 0 where
  shown : A → View A
  no_content : View A
  redirect : String → View A
  http_error : ℕ → String → View A

-- writeJSON of the value, or writeJSONError with the status
unfoldable pub reply : {E A : Type 0} → ℕ → ℕ → Result E A → Reply E A
reply done failed_with (ok a) = (done, ok a)
reply done failed_with (err e) = (failed_with, err e)

-- The same for a call that gives an error or nothing.
unfoldable pub reply_done : {E A : Type 0} → ℕ → ℕ → A → Option E → Reply E A
reply_done done failed_with a none = (done, ok a)
reply_done done failed_with a (some e) = (failed_with, err e)
