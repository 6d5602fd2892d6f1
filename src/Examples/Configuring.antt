-- ===== src/Examples/Configuring.antt =====
-- Small configuration files.
use lctk.Prelude.{
  ◌≡◌, refl, Bool, true, false, none, List, [], ◌∷◌, Text, text, text_eq, trim_space, ◌||◌, arith,
}
use lctk.Codex.{
  begin_marker, end_marker, find_managed_region, trim_trailing_blanks, append_block, region,
  is_blank, merged, remove,
}
use lctk.Codex.Regions.{remove-append_block}

abbrev any : List Text → Bool
any lines = true

abbrev entry_lines : List Text
entry_lines = text "[mcp_servers.lctk_p]" ∷ text "enabled = true" ∷ []

begins : trim_space (begin_marker (text "p")) ≡ begin_marker (text "p")
unfolding trim_space begin_marker
begins = refl

ends : trim_space (end_marker (text "p")) ≡ end_marker (text "p")
unfolding trim_space end_marker
ends = refl

no_end_a : text_eq (trim_space (text "[mcp_servers.lctk_p]")) (end_marker (text "p")) ≡ false
unfolding trim_space end_marker text_eq
no_end_a = refl

no_end_b : text_eq (trim_space (text "enabled = true")) (end_marker (text "p")) ≡ false
unfolding trim_space end_marker text_eq
no_end_b = refl

abbrev first_line : Text
first_line = text "a = 1"

no_begin : text_eq (trim_space first_line) (begin_marker (text "p")) ≡ false
unfolding trim_space begin_marker text_eq
no_begin = refl

blank_or_valid : (lines : List Text) → (is_blank lines || any lines) ≡ true
blank_or_valid lines = ground arith

remove-append_block_example :
    remove any (append_block (first_line ∷ []) (region (text "p") entry_lines)) (text "p")
    ≡ (merged (trim_trailing_blanks (first_line ∷ [])), true)
remove-append_block_example =
    remove-append_block any (text "p") entry_lines begins ends (no_end_a, (no_end_b, tt))
      (first_line ∷ []) (no_begin, tt) (blank_or_valid (trim_trailing_blanks (first_line ∷ [])))

abbrev stray : Text
stray = text "# lctk:begin p"

abbrev header : Text
header = text "[mcp_servers.lctk_p]"

abbrev marker : Text
marker = text "# lctk:begin q"

abbrev next : Text
next = text "[mcp_servers.lctk_q]"

unmanaged : find_managed_region (header ∷ marker ∷ next ∷ []) (text "p") ≡ none
unfolding find_managed_region begin_marker trim_space text_eq
unmanaged = refl
