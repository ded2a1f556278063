-- ===== src/TextView.antt =====
-- gopherus.c, display_text: Raw and Html put a text into the buffer of the screen, Screen shows it.
pub mod Raw
pub mod Html
pub mod Screen
mod Tests
use gopherus.Base.{ℕ, ◌==◌, if◌then◌else◌, Bytes, Option, some}
use gopherus.TextView.Raw.{raw_text}
use gopherus.TextView.Html.{html_text}

abbrev pub txt_format_raw : ℕ
txt_format_raw = 0

abbrev pub txt_format_htm : ℕ
txt_format_htm = 1

-- The text in the buffer; none where the code reads a byte before the buffer.
unfoldable pub content : ℕ → ℕ → Bytes → Option Bytes
content txtformat buffersize cache =
    if txtformat == txt_format_htm
    then some (html_text buffersize cache)
    else raw_text buffersize cache
