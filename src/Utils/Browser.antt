-- ===== src/Utils/Browser.antt =====
-- formatDate and copyToClipboard of utils/helpers.ts.
use hcl_assignment.Common.{String, Bool, true, false, List, [], ◌∷◌}

-- Date and its format in a locale, which are the browser's.
pub record Dates : Type 1 where
  pub Date : Type 0
  pub new_date : String → Date
  pub to_locale_date_string : Date → String → List (String × String) → String

unfoldable pub format_date : Dates → String → String
format_date dates date_str =
    dates.to_locale_date_string (dates.new_date date_str) "en-US"
      (("year", "numeric") ∷ ("month", "short") ∷ ("day", "numeric") ∷ [])

-- What `navigator.clipboard.writeText` comes to.
pub data Written : Type 0 where
  resolved rejected : Written

-- The answer that the handlers of "Copy" await.
unfoldable pub copy_to_clipboard : Written → Bool
copy_to_clipboard resolved = true
copy_to_clipboard rejected = false
