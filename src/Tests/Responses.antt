-- ===== src/Tests/Responses.antt =====
-- A request whose data is the list of what was written to it, newest first.
use mathlib.Core.List.{map}
use fcgiserver.Prelude.{
  ◌≡◌, refl, true, false, List, [], ◌∷◌, ◌++◌, some, Bytes, codes, All, IsByte, concat, arith,
  if◌then◌else◌,
}
use fcgiserver.Prelude.Int.{pos}
use fcgiserver.Symbols.{Symbol, startup}
use fcgiserver.Logger.{LogLevel, error, log}
use fcgiserver.Logger.Stream.{recoded}
use fcgiserver.Request.Response.{
  CgiData, HeaderMap, find_header, Response, new_response, warning_texts, write_all,
  no_data_message, destroy,
}
use fcgiserver.Request.Response.Sending.{
  write_each, response_head, no_data_headers, write_each-write_all, destroy-write_all,
}
use fcgiserver.Request.Response.Headers.{set_each, set_each-find_header, set_each_sent}

abbrev pub recorder : CgiData (List Bytes)
recorder = record {
  read_data = λ size d. (pos 0, [], d);
  write_data = λ buffer d. (pos 0, buffer ∷ d);
  error_data = λ buffer d. (pos 0, d);
  flush_write_data = λ d. (pos 0, d);
  flush_error_data = λ d. (pos 0, d);
}

abbrev pub keep_message : LogLevel → Bytes → List Bytes → List Bytes
keep_message level message messages = message ∷ messages

abbrev pub in_order : HeaderMap → HeaderMap
in_order headers = headers

abbrev fresh : Response (List Bytes) (List Bytes)
fresh = new_response [] (some [])

abbrev answered : Response (List Bytes) (List Bytes)
answered = record fresh { headers_sent = true }

abbrev get_text : Bytes
get_text = codes "GET"

write_each-write_all_example :
    (write_each startup recorder in_order (codes "a" ∷ codes "b" ∷ []) fresh).cgi_data
    ≡ write_all recorder (response_head startup in_order [] ++ codes "a" ∷ codes "b" ∷ []) []
write_each-write_all_example =
    write_each-write_all startup recorder in_order (codes "a") (codes "b" ∷ []) fresh refl

destroy-write_all_example :
    destroy keep_message startup get_text (codes "/") recorder in_order fresh
    ≡ some (
        if false
        then []
        else write_all recorder
            (response_head startup in_order (no_data_headers []) ++ no_data_message ∷ [])
            [])
destroy-write_all_example =
    destroy-write_all keep_message startup get_text (codes "/") recorder in_order fresh

abbrev two_values : HeaderMap
two_values = (1, codes "404") ∷ (1, codes "200") ∷ []

set_each-find_header_example :
    (headers : HeaderMap) × (set_each keep_message startup get_text (codes "/") two_values fresh
      ≡ some (map (λ _. true) two_values, record fresh { headers = headers }))
    × ((key : Symbol) → find_header key headers ≡ find_header key two_values)
set_each-find_header_example =
    set_each-find_header keep_message startup get_text (codes "/") two_values fresh refl

warning_bytes : All (All IsByte) (warning_texts 1 startup get_text (codes "/"))
unfolding fcgiserver.Symbols.resolve startup
warning_bytes = ground arith

set_each_sent_example :
    set_each keep_message startup get_text (codes "/") two_values answered
    ≡ some (
      map (λ _. false) two_values,
      record answered {
        logger =
            log keep_message error
              (concat (map recoded (warning_texts 1 startup get_text (codes "/"))))
              (some []);
        headers_sent_warning = true;
      },
    )
set_each_sent_example =
    set_each_sent keep_message startup get_text (codes "/") 1 (codes "404") ((1, codes "200") ∷ [])
      answered refl refl warning_bytes
