-- ===== src/Platform.antt =====
-- What the program takes from its JavaScript engine and has no table of: Unicode lower case and the
-- parser of absolute URLs. Code that calls them has them as a parameter.
use growthmind.Prelude.{Text, Option}

pub record Platform : Type 0 where
  -- `String.prototype.toLowerCase`
  pub to_lower_case : Text → Text
  -- `new URL(text).pathname`; `none` is the TypeError of a text that is no absolute URL.
  pub url_pathname : Text → Option Text
