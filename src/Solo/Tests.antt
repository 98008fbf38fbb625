-- ===== src/Solo/Tests.antt =====
-- Rounds over lines that are their own host name and message.
use logmara.Prelude.{
  ◌==◌, ◌≡◌, refl, inl, Bool, true, false, Option, none, some, [], ◌∷◌, ◌++◌, Text, codes,
  has_prefix, if◌then◌else◌,
}
use logmara.Parser.Sample.{sample_lib}
use logmara.Parser.Engine.{parse, match}
use logmara.Flush.Reader.{ScannedLine}
use logmara.Worker.Row.{LogRow, corrupt, JsonLib, sanitize, fix_misparse, parse_row}
use logmara.Solo.Loop.{
  LineAnswers, flushed, saved, flush_entries, add_entry, take_row, solo_line, solo_scan, end_round,
  start_round, solo_round,
}
use logmara.Solo.Rows.{Round, Solo, total, rows_of, flushed_rows}
use logmara.Solo.Passes.{AllCalm, solo_round-stores}
use logmara.Solo.Losses.{broken_off_line_lost}

abbrev row_for : Text → LogRow
row_for t = record {
  timestamp = [];
  hostname = t;
  from_host_ip = [];
  app_name = [];
  process_id = [];
  msg_id = [];
  severity = [];
  facility = [];
  message = t;
  raw_message = [];
  via_relay = [];
  parsed_fields = none;
  matched_parsers = [];
}

abbrev decode : Text → Option LogRow
decode [] = none
decode (c ∷ t) = if c == b'#' then none else some (row_for (c ∷ t))

abbrev host_json : JsonLib
host_json = record { envelope = λ t. corrupt none; line = decode; unexpected_end = λ t. false }

abbrev answer_of : Bool → LineAnswers
answer_of paused = record { paused = paused; paused_at_flush = false; now_text = []; now = 7 }

abbrev two_lines : Round
two_lines =
    (record { text = codes "a"; last_advance = 2 }, answer_of false)
    ∷ (record { text = []; last_advance = 1 }, answer_of false)
    ∷ (record { text = codes "b"; last_advance = 2 }, answer_of false)
    ∷ []

abbrev third_line : ScannedLine
third_line = record { text = codes "c"; last_advance = 2 }

abbrev fresh : Solo sample_lib host_json []
fresh = record {
  file_pos = 10;
  flushed_pos = 10;
  cur_file_pos = 10;
  scanned = false;
  entries = [];
  last_flush = 0;
  cache = [];
  effects = [];
}

some_brace : {t : Text} → some (row_for t) ≡ none → has_prefix t (codes "{") ≡ true
some_brace h = absurd (cc)

two_lines-AllCalm : AllCalm sample_lib host_json [] two_lines
two_lines-AllCalm = (
  (refl, refl, λ h k. some_brace k),
  ((refl, refl, λ h k. absurd (cc)), ((refl, refl, λ h k. some_brace k), tt)),
)

solo_round_test :
    (solo_round sample_lib host_json [] two_lines false fresh).effects
    ≡ flushed (row_for (codes "a") ∷ row_for (codes "b") ∷ []) ∷ saved 15 ∷ []
unfolding solo_round solo_scan solo_line take_row add_entry flush_entries end_round start_round
    sanitize fix_misparse parse_row parse match
solo_round_test = refl

solo_round-stores_example :
    (let end = solo_round sample_lib host_json [] two_lines false fresh in
      (flushed_rows end.effects ≡ [] ++ rows_of sample_lib host_json [] [] two_lines)
      × (end.entries ≡ [])
      × (end.file_pos ≡ 15))
solo_round-stores_example =
    solo_round-stores sample_lib host_json [] two_lines fresh two_lines-AllCalm

broken_off_line_lost_example :
    (let end =
        solo_round sample_lib host_json []
          (two_lines ++ (third_line, answer_of true) ∷ [])
          false
          fresh in
      (end.file_pos ≡ 17)
      × (total sample_lib host_json [] end ≡ [] ++ rows_of sample_lib host_json [] [] two_lines))
broken_off_line_lost_example =
    broken_off_line_lost sample_lib host_json [] two_lines third_line (answer_of true) false fresh
      two_lines-AllCalm refl (inl refl)
