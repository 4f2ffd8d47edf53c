-- ===== src/Startup/Flags/Defaults.antt =====
-- What a flag is for a command line that does not name it.
use cillion.Base.{string_eq, ◌==◌, ◌≡◌, ◌∙◌, refl, Bool, false, List, [], ◌∷◌, arith, All}
use cillion.Startup.Flags.{
  Flags, default_flags, Argument, ParseResult, parsed, exits, set_bool, set_flag, parse_from, parse,
}

module _ (other : Argument → Bool) where
  set_flag-enable_http2 :
      (a : Argument) (flags flags' : Flags)
      → set_flag other a flags ≡ parsed flags'
      → (a.0 == "enable-http2") ≡ false
      → flags'.enable_http2 ≡ flags.enable_http2
  unfolding set_flag set_bool
  set_flag-enable_http2 (name, value) flags flags' h ne = ground arith

  parse_from-enable_http2 :
      (args : List Argument) (flags flags' : Flags)
      → parse_from other args flags ≡ parsed flags'
      → All (λ (a : Argument). (a.0 == "enable-http2") ≡ false) args
      → flags'.enable_http2 ≡ flags.enable_http2
  unfolding parse_from
  parse_from-enable_http2 [] flags flags' h ne = ground arith
  parse_from-enable_http2 (a ∷ args) flags flags' h (ne, rest) =
      by_flag (set_flag other a flags) refl h
        (λ mid k. parse_from-enable_http2 args mid flags' k rest)
    where
      by_flag :
          (r : ParseResult)
          → set_flag other a flags ≡ r
          → elim r [ exits code ↦ exits code | parsed mid ↦ parse_from other args mid ]
            ≡ parsed flags'
          → ((mid : Flags)
              → parse_from other args mid ≡ parsed flags'
              → flags'.enable_http2 ≡ mid.enable_http2)
          → flags'.enable_http2 ≡ flags.enable_http2
      by_flag (parsed mid) e k later = later mid k ∙ set_flag-enable_http2 a flags mid e ne
      by_flag (exits code) e k later = absurd (ground arith)

  pub parse-enable_http2 :
      (args : List Argument) (flags : Flags)
      → parse other args ≡ parsed flags
      → All (λ (a : Argument). (a.0 == "enable-http2") ≡ false) args
      → flags.enable_http2 ≡ false
  unfolding parse
  parse-enable_http2 args flags h ne = parse_from-enable_http2 args default_flags flags h ne
