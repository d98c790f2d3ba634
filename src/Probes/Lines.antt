-- ===== src/Probes/Lines.antt =====
-- proton-core/src/bin, what sanitize_check.rs and inspect_html.rs print of a body.
use aerogram.Prelude.{ℕ, Bool, ◌||◌, [], ◌∷◌, length, take, Text, codes, starts_with}
use aerogram.Prelude.Utf8.{as_bytes}
use aerogram.Json.{Value}

-- `str::contains` of a text.
unfoldable pub contains : Text → Text → Bool
contains [] p = starts_with [] p
contains (c ∷ s) p = starts_with (c ∷ s) p || contains s p

-- How long both forms are, what was blocked, and what is left in the HTML.
pub record SafetyLine : Type 0 where
  pub mid : ℕ
  pub html_len : ℕ
  pub text_len : ℕ
  pub blocked_remote : Value
  pub script : Bool
  pub remote_img : Bool
  pub form : Bool
  pub style_attr : Bool

unfoldable pub safety_line : ℕ → Text → Text → Value → SafetyLine
unfolding contains
safety_line mid html text blocked_remote = record {
  mid = mid;
  html_len = length (as_bytes html);
  text_len = length (as_bytes text);
  blocked_remote = blocked_remote;
  script = contains html (codes "<script");
  remote_img = contains html (codes "src=\"http");
  form = contains html (codes "<form");
  style_attr = contains html (codes "style=");
}

-- How long the call took, what is written to the file, which is taken to be writable, and its
-- start.
pub record InspectLine : Type 0 where
  pub mid : ℕ
  pub elapsed : ℕ
  pub html_len : ℕ
  pub written : Text
  pub head : Text

unfoldable pub inspect_line : ℕ → ℕ → Text → InspectLine
inspect_line mid elapsed html = record {
  mid = mid;
  elapsed = elapsed;
  html_len = length (as_bytes html);
  written = html;
  head = take 600 html;
}
