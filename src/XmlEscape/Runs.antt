-- ===== src/XmlEscape/Runs.antt =====
-- Concrete runs of the escape sequences, and their theorem at a concrete input.
use xul.Prelude.{◌+◌, ◌≡◌, refl, Bytes, codes, length}
use xul.Strings.Parts.{find_first_of, is_one_of}
use xul.XmlEscape.{escape, write_loop, characters, mapping, escape_char}
use xul.XmlEscape.Texts.{unescape, IsPlain, unescape-escape}

abbrev address : Bytes
address = codes "a?b=6&c='<'"

unescape-escape_example :
    (unescape (length (escape address) + 1) (escape address) ≡ address) × IsPlain (escape address)
unescape-escape_example = unescape-escape address

escaped_address : escape address ≡ codes "a?b=6&amp;c=&apos;&lt;&apos;"
unfolding escape write_loop find_first_of is_one_of characters mapping escape_char
escaped_address = refl
