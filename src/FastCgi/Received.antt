-- ===== src/FastCgi/Received.antt =====
-- What the web server receives of a request (src/lib/fast_cgi_data.cpp).
use fcgiserver.Prelude.{
  ◌≡◌, ◌∙◌, sym, ap, List, [], ◌∷◌, ◌++◌, append_assoc, append-nil, Bytes, concat,
}
use fcgiserver.Request.Response.{write_all}
use fcgiserver.FastCgi.{FcgxStreams, write_out, destroy_data, fast_cgi_data}

-- What is documented of the output stream of a request: a text that is put is appended to what the
-- stream holds, and the end of the request keeps it.
pub record Appends {Q : Type 0} (fcgx : FcgxStreams Q) (out : Q → Bytes) : Type 0 where
  pub puts_out : (text : Bytes) (q : Q) → out (fcgx.put_str_out text q).1 ≡ out q ++ text
  pub finished : (q : Q) → out (fcgx.finish q) ≡ out q

module _ {Q : Type 0} (fcgx : FcgxStreams Q) (out : Q → Bytes) (h : Appends fcgx out) where
  pub write_all-received :
      (texts : List Bytes) (q : Q)
      → out (write_all (fast_cgi_data fcgx) texts q) ≡ out q ++ concat texts
  unfolding fast_cgi_data write_out
  write_all-received [] q = sym (append-nil (out q))
  write_all-received (text ∷ texts) q =
      write_all-received texts (fcgx.put_str_out text q).1
      ∙ ap (λ sent. sent ++ concat texts) (h.puts_out text q)
      ∙ append_assoc (out q) text (concat texts)

  -- When the data of a request is destroyed, the stream holds what was written, in order.
  pub destroy_data-received :
      (texts : List Bytes) (q : Q)
      → out (destroy_data fcgx (write_all (fast_cgi_data fcgx) texts q)) ≡ out q ++ concat texts
  unfolding destroy_data
  destroy_data-received texts q =
      h.finished (write_all (fast_cgi_data fcgx) texts q) ∙ write_all-received texts q
