-- ===== src/Envelope/Markers.antt =====
-- No text of a sender's body is taken for a marker of the envelope, and no control rune gets
-- through: core/envelope.go.
use intermute.Base.{
  ℕ, ◌≡◌, ◌≢◌, refl, sym, ap, subst, ◌∙◌, inl, inr, true, false, List, [], ◌∷◌, ◌++◌, map, ◌==◌,
  if_cases, All, All-append, All-parts, and-parts, ◌⊎◌, ◌≤◌, Text, codes, has_prefix, split_on,
  join_with, Without, split_on-Without, split_on-join_with, split_on-ne_nil, split_on_first,
  join_with-split_on, split_on-append, arith,
}
use intermute.Envelope.{
  newline, dashes, is_kept, cleaned, escape, escape_line, sanitize_body, envelope_start,
  envelope_end, envelope_hint, wrap_envelope,
}

-- A line that is not taken for a marker.
abbrev pub IsData : Text → Type 0
IsData line = has_prefix line dashes ≡ false

escape-Without :
    (sep mark : ℕ) (line : Text)
    → sep ≢ mark
    → sep ≢ b'\\'
    → Without sep line
    → Without sep (escape mark line)
unfolding escape
escape-Without sep mark [] n b h = tt
escape-Without sep mark (c ∷ line) n b h =
    if_cases (Without sep) (c == mark) _ _
      (λ _. (λ e. b (sym e), (λ e. n (sym e), escape-Without sep mark line n b h.1)))
      (λ _. (h.0, escape-Without sep mark line n b h.1))

escape_line-Without : (line : Text) → Without newline line → Without newline (escape_line line)
unfolding escape_line
escape_line-Without line h =
    if_cases (Without newline) (has_prefix line dashes) _ _
      (λ _.
        escape-Without newline b'=' (escape b'-' line) (omega arith) (omega arith)
          (escape-Without newline b'-' line (omega arith) (omega arith) h))
      (λ _. h)

escape_line-IsData : (line : Text) → IsData (escape_line line)
unfolding escape_line has_prefix escape
escape_line-IsData [] = refl
escape_line-IsData (c ∷ line) =
    if_cases IsData (has_prefix (c ∷ line) dashes) _ _
      (λ e. rw (and-parts (c == b'-') (has_prefix line (codes "--")) e).0) (λ e. e)

lines-IsData : (lines : List Text) → All IsData (map escape_line lines)
lines-IsData [] = tt
lines-IsData (line ∷ lines) = (escape_line-IsData line, lines-IsData lines)

lines-Without :
    (lines : List Text)
    → All (Without newline) lines
    → All (Without newline) (map escape_line lines)
lines-Without [] h = tt
lines-Without (line ∷ lines) h = (escape_line-Without line h.0, lines-Without lines h.1)

-- The lines of the result are the escaped lines.
sanitize_body-lines :
    (body : Text)
    → split_on newline (sanitize_body body) ≡ map escape_line (split_on newline (cleaned body))
unfolding sanitize_body
sanitize_body-lines body =
    rejoin (split_on newline (cleaned body)) (split_on-ne_nil newline (cleaned body))
      (split_on-Without newline (cleaned body))
  where
    rejoin :
        (lines : List Text)
        → lines ≢ []
        → All (Without newline) lines
        → split_on newline (join_with newline (map escape_line lines)) ≡ map escape_line lines
    rejoin [] ne h = absurd (ne refl)
    rejoin (line ∷ lines) ne h =
        split_on-join_with newline (escape_line line) (map escape_line lines)
          (lines-Without (line ∷ lines) h)

-- A rune that a terminal shows, a tab or the end of a line.
abbrev pub IsShown : ℕ → Type 0
IsShown c = ((c ≡ 10) ⊎ (c ≡ 9)) ⊎ ((32 ≤ c) × (c ≢ 127))

cleaned-IsShown : (body : Text) → All IsShown (cleaned body)
unfolding cleaned
cleaned-IsShown [] = tt
cleaned-IsShown (r ∷ body) =
    if_cases (All IsShown) (is_kept r) _ _ (λ e. (shown r e, cleaned-IsShown body))
      (λ _. cleaned-IsShown body)
  where
    shown : (r : ℕ) → is_kept r ≡ true → IsShown r
    shown r e = ground arith

escape-IsShown :
    (mark : ℕ) (line : Text) → IsShown mark → All IsShown line → All IsShown (escape mark line)
unfolding escape
escape-IsShown mark [] m h = tt
escape-IsShown mark (c ∷ line) m h =
    if_cases (All IsShown) (c == mark) _ _
      (λ _. (inr (omega arith), (m, escape-IsShown mark line m h.1)))
      (λ _. (h.0, escape-IsShown mark line m h.1))

escape_line-IsShown : (line : Text) → All IsShown line → All IsShown (escape_line line)
unfolding escape_line
escape_line-IsShown line h =
    if_cases (All IsShown) (has_prefix line dashes) _ _
      (λ _.
        escape-IsShown b'=' (escape b'-' line) (inr (omega arith))
          (escape-IsShown b'-' line (inr (omega arith)) h))
      (λ _. h)

-- However the body is written, no line of what is left of it is taken for a marker, and every rune
-- of it is shown, a tab or the end of a line.
pub sanitize_body-IsData :
    (body : Text)
    → All IsData (split_on newline (sanitize_body body)) × All IsShown (sanitize_body body)
unfolding sanitize_body join_with
sanitize_body-IsData body = (
  subst (All IsData) (sym (sanitize_body-lines body))
      (lines-IsData (split_on newline (cleaned body))),
  joined-IsShown (split_on newline (cleaned body)) (
      subst (All IsShown) (sym (join_with-split_on newline (cleaned body))) (cleaned-IsShown body)),
)
  where
    joined-IsShown :
        (lines : List Text)
        → All IsShown (join_with newline lines)
        → All IsShown (join_with newline (map escape_line lines))
    joined-IsShown [] h = tt
    joined-IsShown (line ∷ []) h = escape_line-IsShown line h
    joined-IsShown (line ∷ next ∷ lines) h =
        let parts = All-parts IsShown line (newline ∷ join_with newline (next ∷ lines)) h in
        All-append IsShown (escape_line line) _ (escape_line-IsShown line parts.0)
          (inl (inl refl), joined-IsShown (next ∷ lines) parts.1.1)

cleaned-kept : (body : Text) → All IsShown body → cleaned body ≡ body
unfolding cleaned
cleaned-kept [] h = refl
cleaned-kept (r ∷ body) h = rw (kept r h.0) (ap (λ rest. r ∷ rest) (cleaned-kept body h.1))
  where
    kept : (r : ℕ) → IsShown r → is_kept r ≡ true
    kept r h = ground arith

escape_lines-IsData : (lines : List Text) → All IsData lines → map escape_line lines ≡ lines
unfolding escape_line
escape_lines-IsData [] h = refl
escape_lines-IsData (line ∷ lines) h =
    rw h.0 (ap (λ rest. line ∷ rest) (escape_lines-IsData lines h.1))

-- A body that shows every rune and has no line like a marker is left as it is; so sanitizing twice
-- is sanitizing once.
pub sanitize_body_fixed :
    (body : Text)
    → (All IsShown body → All IsData (split_on newline body) → sanitize_body body ≡ body)
      × (sanitize_body (sanitize_body body) ≡ sanitize_body body)
unfolding sanitize_body
sanitize_body_fixed body = (
  fixed body,
  fixed (sanitize_body body) (sanitize_body-IsData body).1 (sanitize_body-IsData body).0,
)
  where
    fixed : (b : Text) → All IsShown b → All IsData (split_on newline b) → sanitize_body b ≡ b
    fixed b shown data_lines =
        ap (λ (x : Text). join_with newline (map escape_line (split_on newline x)))
          (cleaned-kept b shown)
        ∙ ap (join_with newline) (escape_lines-IsData (split_on newline b) data_lines)
        ∙ join_with-split_on newline b

hint-Without : Without newline envelope_hint
hint-Without = omega arith

end-Without : Without newline envelope_end
end-Without = omega arith

start-Without :
    (sender thread_id : Text)
    → Without newline sender
    → Without newline thread_id
    → Without newline (envelope_start sender thread_id)
start-Without sender thread_id hs ht =
    All-append (λ c. c ≢ newline) (codes "--- INTERMUTE-PEER-MESSAGE START [from=") _ (omega arith)
      (All-append (λ c. c ≢ newline) sender _ hs
        (All-append (λ c. c ≢ newline) (codes ", thread=") _ (omega arith)
          (All-append (λ c. c ≢ newline) thread_id _ ht (omega arith))))

-- Where sender and thread are one line each, the lines of the envelope are its start, the hint, the
-- lines of the sanitized body and its end, and no line between start and end is taken for a marker.
pub wrap_envelope-IsData :
    (sender thread_id body : Text)
    → Without newline sender
    → Without newline thread_id
    → (split_on newline (wrap_envelope sender thread_id body)
        ≡ envelope_start sender thread_id
          ∷ envelope_hint
          ∷ (split_on newline (sanitize_body body) ++ envelope_end ∷ []))
      × All IsData (envelope_hint ∷ split_on newline (sanitize_body body))
unfolding wrap_envelope has_prefix
wrap_envelope-IsData sender thread_id body hs ht = (
  split_on_first newline (envelope_start sender thread_id) _ (start-Without sender thread_id hs ht)
      ∙ ap (λ rest. envelope_start sender thread_id ∷ rest)
          (split_on_first newline envelope_hint (sanitize_body body ++ newline ∷ envelope_end)
              hint-Without
            ∙ ap (λ rest. envelope_hint ∷ rest)
                (split_on-append newline (sanitize_body body) envelope_end
                  ∙ ap (λ rest. split_on newline (sanitize_body body) ++ rest)
                      (split_on-join_with newline envelope_end [] (end-Without, tt)))),
  (refl, (sanitize_body-IsData body).0),
)
