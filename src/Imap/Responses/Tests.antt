-- ===== src/Imap/Responses/Tests.antt =====
-- imap/types.hpp: the parsers at concrete inputs.
use mailio.Base.{◌≡◌, refl, true, false, [], ◌∷◌, ◌++◌, arith}
use mailio.Base.Bytes.{codes}
use mailio.Wire.{parse_uint32, digits_value}
use mailio.Base.Bytes.{find, equal}
use mailio.Imap.Responses.{
  ltrim, upper, iequals_loop, iequals_ascii, split_at, split_token, read_uint32, parse_counted,
  parse_exists, parse_item, parse_brackets, parse_ok_item, parse_unseen, search_loop,
  parse_search_ids,
}
use mailio.Imap.Responses.{MailboxStat}
use mailio.Imap.Responses.Roundtrip.{id_list, parse_search_ids-line}

exists_run : parse_exists (codes " * 23 exists") 0 ≡ (true, 23)
unfolding parse_exists parse_counted split_token split_at ltrim iequals_ascii iequals_loop upper
    read_uint32 parse_uint32 digits_value find equal
exists_run = refl

-- The number is written although the line is another one.
recent_run : parse_exists (codes "* 5 RECENT") 0 ≡ (false, 5)
unfolding parse_exists parse_counted split_token split_at ltrim iequals_ascii iequals_loop upper
    read_uint32 parse_uint32 digits_value find equal
recent_run = refl

unseen_run : parse_unseen (codes "* OK [UNSEEN 12] Message 12") 0 ≡ (true, 12)
unfolding parse_unseen parse_ok_item parse_brackets parse_item split_token split_at ltrim
    iequals_ascii iequals_loop upper read_uint32 parse_uint32 digits_value find equal
unseen_run = refl

search_run : parse_search_ids (codes "* SEARCH 2 84 4294967296") ≡ 2 ∷ 84 ∷ []
unfolding parse_search_ids search_loop split_token split_at ltrim iequals_ascii iequals_loop upper
    parse_uint32 digits_value find equal
search_run = refl

abbrev empty_stat : MailboxStat
empty_stat = record { messages_no = 0; recent = 0; unseen = 0; uid_next = 0; uid_validity = 0 }

parse_search_ids-line_example :
    parse_search_ids (codes "* SEARCH" ++ id_list (2 ∷ 84 ∷ [])) ≡ 2 ∷ 84 ∷ []
parse_search_ids-line_example = parse_search_ids-line (2 ∷ 84 ∷ []) (omega arith, (omega arith, tt))
