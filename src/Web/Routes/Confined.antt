-- ===== src/Web/Routes/Confined.antt =====
-- Which files serve_static of src/web/http_server.cpp can give out.
use fmesh_cli.Common.{
  ℕ, ◌≡◌, refl, ap, false, ◌++◌, Option, none, some, Bytes, codes, Bool-cases, inl, inr,
}
use fmesh_cli.Mesh.NodeDb.{occurs}
use fmesh_cli.Tui.Window.{find}
use fmesh_cli.Web.Routes.{
  without_slash, has_dots, clean, fallback, serve_static, file, get_mime_type,
}

fallback_same :
    (error_text : Bytes → ℕ → Bytes) (files files' : Bytes → Option Bytes)
    (static_dir clean_path : Bytes)
    → files (static_dir ++ codes "/index.html") ≡ files' (static_dir ++ codes "/index.html")
    → fallback error_text files static_dir clean_path
      ≡ fallback error_text files' static_dir clean_path
unfolding fallback
fallback_same error_text files files' static_dir clean_path page =
    elim (Bool-cases (occurs (find (codes ".") clean_path))) [
      | inl e ↦ rw (fallback, e) refl
      | inr e ↦ rw (fallback, e, page) refl
    ]

-- What serve_static answers depends on no file but those whose name is that of the directory,
-- without a slash at its end, followed by a text without "..", and the directory's index.html: if
-- two file systems agree on these, it answers the same with both.
pub serve_static-confined :
    (error_text : Bytes → ℕ → Bytes) (files files' : Bytes → Option Bytes) (static_dir path : Bytes)
    → ((p : Bytes)
        → has_dots p ≡ false
        → files (without_slash static_dir ++ p) ≡ files' (without_slash static_dir ++ p))
    → files (static_dir ++ codes "/index.html") ≡ files' (static_dir ++ codes "/index.html")
    → serve_static error_text files static_dir path ≡ serve_static error_text files' static_dir path
unfolding serve_static
serve_static-confined error_text files files' static_dir path inside page =
    elim (Bool-cases (has_dots (clean path))) [
      | inl e ↦ rw (serve_static, e) refl
      | inr e ↦
          rw (serve_static, e, inside (clean path) e)
            (ap
              (λ r. elim (files' (without_slash static_dir ++ clean path)) [
                | none ↦ r
                | some content ↦ file (get_mime_type (clean path)) content
              ])
              (fallback_same error_text files files' static_dir (clean path) page))
    ]
