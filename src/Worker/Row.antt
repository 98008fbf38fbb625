-- ===== src/Worker/Row.antt =====
-- backend/tailer/worker.go and backend/tailer/tailer.go: the row that is made of a queued line. The
-- JSON decoder is a parameter.
use logmara.Prelude.{
  ℕ, leb, ◌==◌, Bool, true, false, not, ◌&&◌, Option, none, some, String, List, [], ◌∷◌, ◌++◌, map,
  filter, if◌then◌else◌, Text, codes, contains, has_prefix, Assoc,
}
use logmara.Parser.Cache.{RegexpLib, Cache}
use logmara.Parser.Engine.{Parser, ParseResult, parse}
use logmara.Flush.Tracker.{QueueEntry}

-- `model.IngestEntry`.
pub record LogRow : Type 0 where
  pub timestamp : Text
  pub hostname : Text
  pub from_host_ip : Text
  pub app_name : Text
  pub process_id : Text
  pub msg_id : Text
  pub severity : Text
  pub facility : Text
  pub message : Text
  pub raw_message : Text
  pub via_relay : Text
  pub parsed_fields : Option (Assoc Text)
  pub matched_parsers : List String

-- `json.Unmarshal` of an envelope: decoded, or not; then what the decoding of its numbers gives.
pub data Envelope : Type 0 where
  whole : QueueEntry → Envelope
  corrupt : Option (ℕ × ℕ) → Envelope

-- The decoder: of an envelope, of a line, and whether its error on a line is an unexpected end.
pub record JsonLib : Type 0 where
  pub envelope : Text → Envelope
  pub line : Text → Option LogRow
  pub unexpected_end : Text → Bool

-- `sanitizeForPostgres`, on code points: the zero goes.
unfoldable pub sanitize : Text → Text
sanitize t = filter (λ c. not (c == 0)) t

abbrev pub sanitize_row : LogRow → LogRow
sanitize_row r = record r {
  hostname = sanitize r.hostname;
  from_host_ip = sanitize r.from_host_ip;
  app_name = sanitize r.app_name;
  process_id = sanitize r.process_id;
  msg_id = sanitize r.msg_id;
  severity = sanitize r.severity;
  facility = sanitize r.facility;
  message = sanitize r.message;
  raw_message = sanitize r.raw_message;
  via_relay = sanitize r.via_relay;
}

-- `looksTruncatedAtSource`.
unfoldable pub looks_truncated_at_source : JsonLib → Text → Bool
looks_truncated_at_source json line =
    has_prefix line (codes "{\"timestamp\":\"") && json.unexpected_end line

-- The row of a line that is no JSON; `now` is the formatted time.
unfoldable pub malformed_row : JsonLib → Text → Text → LogRow
malformed_row json now line = record {
  timestamp = now;
  hostname = codes "unknown";
  from_host_ip = [];
  app_name = [];
  process_id = [];
  msg_id = [];
  severity = codes "error";
  facility = [];
  message =
      codes (
        if looks_truncated_at_source json line then "[TRUNCATED AT SOURCE]" else "[MALFORMED JSON]")
      ++ codes " "
      ++ sanitize line;
  raw_message = [];
  via_relay = [];
  parsed_fields = none;
  matched_parsers = [];
}

-- `truncatedISORe`: `^\d{4}-\d{2}-\d{2}T\d{2}$`.
abbrev pub fits_shape : Text → Text → Bool
fits_shape [] [] = true
fits_shape [] (c ∷ t) = false
fits_shape (s ∷ shape) [] = false
fits_shape (s ∷ shape) (c ∷ t) =
    (if s == b'd' then leb b'0' c && leb c b'9' else s == c) && fits_shape shape t

abbrev pub truncated_iso : Text → Bool
truncated_iso t = fits_shape (codes "dddd-dd-ddTdd") t

-- The message that rsyslog split at a colon is put together again.
unfoldable pub fix_misparse : LogRow → LogRow
fix_misparse r =
    let full = r.app_name ++ codes ":" ++ r.message in
    if truncated_iso r.app_name
    then record r {
      message = full;
      raw_message = full;
      app_name = if contains full (codes "CEF:") then codes "CEF" else [];
    }
    else r

abbrev pub with_result : Option ParseResult → LogRow → LogRow
with_result none r = r
with_result (some p) r = record r {
  parsed_fields = some (map (λ f. (f.0, sanitize f.1)) p.fields);
  matched_parsers = p.parsers;
}

-- The call of the parser engine.
unfoldable pub parse_row : (lib : RegexpLib) → List Parser → LogRow → Cache lib → LogRow × Cache lib
parse_row lib ps r m =
    let (p, m') =
      parse lib ps (record { hostname = r.hostname; app_name = r.app_name; message = r.message })
        m in
    (with_result p r, m')
