-- ===== src/FastCgi.antt =====
-- src/lib/fast_cgi_data.cpp: the data of the server by the FastCGI library. Q is the library's
-- `FCGX_Request`; its functions are parameters.
pub mod Received
use fcgiserver.Prelude.{ℕ, ◌≡◌, List, Bytes}
use fcgiserver.Prelude.Int.{ℤ}
use fcgiserver.Request.Response.{CgiData}

-- `FCGX_GetStr` on the stream `in`, `FCGX_PutStr` and `FCGX_FFlush` on `out` and on `err`,
-- `FCGX_Finish_r`, and the field `envp`.
pub record FcgxStreams (Q : Type 0) : Type 0 where
  pub get_str : ℕ → Q → ℤ × Bytes × Q
  pub put_str_out : Bytes → Q → ℤ × Q
  pub put_str_err : Bytes → Q → ℤ × Q
  pub flush_out : Q → ℤ × Q
  pub flush_err : Q → ℤ × Q
  pub finish : Q → Q
  pub envp : Q → List Bytes

module _ {Q : Type 0} (fcgx : FcgxStreams Q) where
  unfoldable pub read_in : ℕ → Q → ℤ × Bytes × Q
  read_in bufsize q = fcgx.get_str bufsize q

  unfoldable pub write_out : Bytes → Q → ℤ × Q
  write_out buffer q = fcgx.put_str_out buffer q

  unfoldable pub write_err : Bytes → Q → ℤ × Q
  write_err buffer q = fcgx.put_str_err buffer q

  unfoldable pub flush_write_out : Q → ℤ × Q
  flush_write_out q = fcgx.flush_out q

  unfoldable pub flush_write_err : Q → ℤ × Q
  flush_write_err q = fcgx.flush_err q

  unfoldable pub env_of : Q → List Bytes
  env_of q = fcgx.envp q

  -- `FastCgiData::~FastCgiData`
  unfoldable pub destroy_data : Q → Q
  destroy_data q = fcgx.finish q

  -- `class FastCgiData`
  unfoldable pub fast_cgi_data : CgiData Q
  unfolding read_in write_out write_err flush_write_out flush_write_err
  fast_cgi_data = record {
    read_data = read_in;
    write_data = write_out;
    error_data = write_err;
    flush_write_data = flush_write_out;
    flush_error_data = flush_write_err;
  }
