-- ===== src/Server/Pool/Opening.antt =====
-- How a server gets its socket (src/lib/server.cpp).
use mathlib.Core.List.{map}
use fcgiserver.Prelude.{
  ◌≡◌, ◌∙◌, Bool, true, false, not, ◌&&◌, ◌||◌, List, [], ◌∷◌, some, Bytes, codes, concat, All,
  IsByte, if◌then◌else◌, Bool-cases, inl, inr, arith,
}
use fcgiserver.Prelude.Int.{pos}
use fcgiserver.Strings.{is_empty}
use fcgiserver.Formatter.Numbers.{print_int}
use fcgiserver.Logger.{LogLevel, error, log}
use fcgiserver.Logger.Stream.{recoded, log_stream-log}
use fcgiserver.Request.State.Texts.{print_int-IsByte}
use fcgiserver.Server.Pool.{
  Event, unmasked, opened, Fcgx, Server, is_zero, is_minus_one, create_socket, initialize,
}

-- Whether there is a socket: the library starts, and either the web server hands a socket over, or
-- one can be opened at a path that is given.
abbrev pub succeeds : Fcgx → Bytes → Bool
succeeds fcgx path =
    is_zero fcgx.init
    && (not fcgx.is_cgi || (not (is_empty path) && not (is_minus_one (fcgx.open_socket path))))

-- What is logged else.
abbrev pub failure : Fcgx → Bytes → Bytes
failure fcgx path =
    if not (is_zero fcgx.init)
    then concat (map recoded (codes "Error " ∷ print_int fcgx.init ∷ codes " on FCGX_Init" ∷ []))
    else if is_empty path
    then codes "Running as CGI but no socket_path given!"
    else concat (map recoded (codes "Create socket error: " ∷ fcgx.open_error ∷ []))

abbrev pub opens : Fcgx → Bytes → List Event
opens fcgx path =
    if is_zero fcgx.init && (fcgx.is_cgi && not (is_empty path))
    then unmasked ∷ opened path ∷ []
    else []

module _ {D L U V : Type 0} where
  -- The server with the socket: its own, with the path, or that of the web server, which is 0.
  abbrev pub with_socket : Fcgx → Bytes → Server D L U V → Server D L U V
  with_socket fcgx path s =
      if fcgx.is_cgi
      then record s { socket_path = path; socket_fd = fcgx.open_socket path }
      else record s { socket_fd = pos 0 }

  module _ (log_message : LogLevel → Bytes → L → L) where
    abbrev pub with_failure : Fcgx → Bytes → Server D L U V → Server D L U V
    with_failure fcgx path s = record s {
      logger = log log_message error (failure fcgx path) s.logger;
    }

    create_socket-succeeds :
        (fcgx : Fcgx) (path : Bytes) (s : Server D L U V)
        → All IsByte fcgx.open_error
        → is_zero fcgx.init ≡ true
        → fcgx.is_cgi ≡ true
        → is_empty path ≡ false
        → create_socket log_message fcgx path s
          ≡ some (
            succeeds fcgx path,
            if succeeds fcgx path then with_socket fcgx path s else with_failure fcgx path s,
            opens fcgx path,
          )
    create_socket-succeeds fcgx path s bytes zero cgi given =
        elim (Bool-cases (is_minus_one (fcgx.open_socket path))) [
          | inl bad ↦
              rw (zero, cgi, given, bad)
                (rw (
                  log_stream-log log_message error
                    (codes "Create socket error: " ∷ fcgx.open_error ∷ []) s.logger (ground arith)))
          | inr good ↦ rw (zero, cgi, given, good)
        ]

    initialize_opening :
        (fcgx : Fcgx) (path : Bytes) (s : Server D L U V)
        → is_zero fcgx.init ≡ true
        → fcgx.is_cgi ≡ true
        → is_empty path ≡ false
        → initialize log_message fcgx path s ≡ create_socket log_message fcgx path s
    unfolding initialize
    initialize_opening fcgx path s zero cgi given = rw (zero, cgi, given)

    -- A server is initialised exactly if the library starts and there is a socket: that of the web
    -- server, or one opened at a path that is not empty. Then the socket is kept; else the server is
    -- as it was, but for one error message that says why. The text of the system's error is bytes.
    pub initialize-succeeds :
        (fcgx : Fcgx) (path : Bytes) (s : Server D L U V)
        → All IsByte fcgx.open_error
        → initialize log_message fcgx path s
          ≡ some (
            succeeds fcgx path,
            if succeeds fcgx path then with_socket fcgx path s else with_failure fcgx path s,
            opens fcgx path,
          )
    unfolding initialize
    initialize-succeeds fcgx path s bytes = elim (Bool-cases (is_zero fcgx.init)) [
      | inl zero ↦ elim (Bool-cases fcgx.is_cgi) [
        | inl cgi ↦ elim (Bool-cases (is_empty path)) [
          | inl missing ↦ rw (zero, cgi, missing)
          | inr given ↦
              initialize_opening fcgx path s zero cgi given
              ∙ create_socket-succeeds fcgx path s bytes zero cgi given
        ]
        | inr web ↦ rw (zero, web)
      ]
      | inr bad ↦
          let digits = print_int-IsByte fcgx.init in
          rw bad (
            rw (
              log_stream-log log_message error
                (codes "Error " ∷ print_int fcgx.init ∷ codes " on FCGX_Init" ∷ []) s.logger
                (ground arith)))
    ]
