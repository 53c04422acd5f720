-- ===== src/App/Config/File/Lines.antt =====
-- A line of the configuration's file, as load_config of src/app/config.cpp reads it.
use fmesh_cli.Common.{
  ℕ, suc, ◌+◌, ◌-◌, ◌≤◌, ◌<◌, ◌≡◌, refl, sym, ap, ap₂, ◌∙◌, false, [], ◌∷◌, ◌++◌, none, some, Bytes,
  length, take, drop, index_of, ◌==◌, arith, append_assoc, take-length-append, length-append,
}
use fmesh_cli.Stream.Server.Login.{c_string, strip_last}
use fmesh_cli.Stream.Server.Login.Accepts.{NoNul, NoNul-append, c_string-NoNul, strip_last-append}
use fmesh_cli.Tui.InputLine.History.{OneLine}
use fmesh_cli.App.Config.Args.{AppConfig}
use fmesh_cli.App.Config.File.{line_room, chunks, set_key, load_line, load_lines}

-- A text that a line of the file can hold behind its key.
pub record Storable (v : Bytes) : Type 0 where
  pub no_nul : NoNul v
  pub one_line : OneLine v
  pub short : length v ≤ 230

chunk_end :
    (cur rest : Bytes) (room : ℕ)
    → chunks room cur (b'\n' ∷ rest) ≡ (cur ++ (b'\n' ∷ [])) ∷ chunks line_room [] rest
unfolding chunks
chunk_end [] rest room = refl
chunk_end (c ∷ cur) rest room = refl

chunk_more :
    (x : ℕ) (cur xs : Bytes) (room : ℕ)
    → (x == b'\n') ≡ false
    → 2 ≤ room
    → chunks room cur (x ∷ xs) ≡ chunks (room - 1) (cur ++ (x ∷ [])) xs
unfolding chunks
chunk_more x [] xs room h two = ground arith
chunk_more x (c ∷ cur) xs room h two = ground arith

chunk_line :
    (line cur rest : Bytes) (room : ℕ)
    → OneLine line
    → length line < room
    → chunks room cur (line ++ (b'\n' ∷ rest))
      ≡ (cur ++ (line ++ (b'\n' ∷ []))) ∷ chunks line_room [] rest
chunk_line [] cur rest room h lt = chunk_end cur rest room
chunk_line (x ∷ line) cur rest room h lt =
    chunk_more x cur (line ++ (b'\n' ∷ rest)) room h.0 (omega arith)
    ∙ chunk_line line (cur ++ (x ∷ [])) rest (room - 1) h.1 (omega arith)
    ∙ ap (λ y. y ∷ chunks line_room [] rest) (append_assoc cur (x ∷ []) (line ++ (b'\n' ∷ [])))

OneLine-append : (xs ys : Bytes) → OneLine xs → OneLine ys → OneLine (xs ++ ys)
OneLine-append [] ys hx hy = hy
OneLine-append (x ∷ xs) ys hx hy = (hx.0, OneLine-append xs ys hx.1 hy)

index_of-append :
    (c : ℕ) (xs ys : Bytes) → index_of c xs ≡ none → index_of c (xs ++ (c ∷ ys)) ≡ some (length xs)
unfolding index_of
index_of-append c [] ys h = ground arith
index_of-append c (x ∷ xs) ys h = ground (arith, index_of-append c xs ys)

drop_past : (us vs : Bytes) (c : ℕ) → drop (length us + 1) (us ++ (c ∷ vs)) ≡ vs
drop_past [] vs c = refl
drop_past (u ∷ us) vs c =
    ap (λ n. drop n (u ∷ (us ++ (c ∷ vs)))) {y = suc (length us + 1)} (omega arith)
    ∙ drop_past us vs c

load_stripped :
    (text line : Bytes) (eq : ℕ) (c : AppConfig)
    → strip_last b'\n' (c_string text) ≡ line
    → index_of b'=' line ≡ some eq
    → load_line text c ≡ set_key (take eq line) (drop (eq + 1) line) c
unfolding load_line
load_stripped text line eq c h e =
    rw (load_line, ap (index_of b'=') h ∙ e) (ap (λ l. set_key (take eq l) (drop (eq + 1) l) c) h)

-- A line of the file sets its key.
load_line-set_key :
    (key v : Bytes) (c : AppConfig)
    → NoNul key
    → NoNul v
    → index_of b'=' key ≡ none
    → load_line ((key ++ (b'=' ∷ v)) ++ (b'\n' ∷ [])) c ≡ set_key key v c
load_line-set_key key v c hk hv e =
    let line : Bytes = key ++ (b'=' ∷ v) in
    let nul : NoNul (line ++ (b'\n' ∷ [])) =
      NoNul-append line (b'\n' ∷ []) (NoNul-append key (b'=' ∷ v) hk (omega arith, hv))
        (omega arith, tt) in
    load_stripped (line ++ (b'\n' ∷ [])) line (length key) c
      (ap (strip_last b'\n') (c_string-NoNul (line ++ (b'\n' ∷ [])) nul)
        ∙ strip_last-append b'\n' line)
      (index_of-append b'=' key v e)
    ∙ ap₂ (λ k w. set_key k w c) (take-length-append key (b'=' ∷ v)) (drop_past key v b'=')

abbrev pub key_line : Bytes → Bytes → Bytes → Bytes
key_line key v rest = key ++ (b'=' ∷ (v ++ (b'\n' ∷ rest)))

-- A key without "=" that a line can hold before its value.
pub record IsKey (key : Bytes) : Type 0 where
  pub no_nul : NoNul key
  pub one_line : OneLine key
  pub short : length key ≤ 20
  pub no_sign : index_of b'=' key ≡ none

-- The first line of a text is loaded first.
pub load_first :
    (key v rest : Bytes) (c d : AppConfig)
    → IsKey key
    → Storable v
    → set_key key v c ≡ d
    → load_lines (chunks line_room [] (key_line key v rest)) c
      ≡ load_lines (chunks line_room [] rest) d
unfolding load_lines
load_first key v rest c d k st e =
    let line : Bytes = key ++ (b'=' ∷ v) in
    ap (λ t. load_lines (chunks line_room [] t) c)
      (sym (append_assoc key (b'=' ∷ v) (b'\n' ∷ rest)))
    ∙ ap (λ ls. load_lines ls c)
        (chunk_line line [] rest line_room
          (OneLine-append key (b'=' ∷ v) k.one_line (refl, st.one_line))
          (omega (arith, length-append key (b'=' ∷ v), st.short, k.short)))
    ∙ ap (load_lines (chunks line_room [] rest))
        (load_line-set_key key v c k.no_nul st.no_nul k.no_sign ∙ e)
