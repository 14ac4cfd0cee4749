-- ===== src/Network/Tail/Bounded.antt =====
-- network/tunnel.rs: the buffer holds the newest bytes of all that was pushed.
use salmon.Base.{
  joined_pieces, ℕ, ◌+◌, ◌-◌, ◌≤◌, ◌<◌, false, List, [], ◌∷◌, ◌++◌, ◌≡◌, refl, sym, ap, ◌∙◌, arith,
  Text, ltb, leb, leb→le, leb→gt, ltb→ge, length, drop, Bool-cases, inl, inr, All, length-append,
  length-drop, drop-append, drop-append_ge, drop-drop, append_assoc, append-nil,
}
use salmon.Network.Tail.{TailBuffer, max_failure_output_bytes, empty, push}

-- the newest bytes of a text
abbrev pub newest : Text → Text
newest seen = drop (length seen - max_failure_output_bytes) seen

unfoldable pub push_all : TailBuffer → List Text → TailBuffer
push_all buffer [] = buffer
push_all buffer (bytes ∷ pieces) = push_all (push buffer bytes) pieces

drop_all : (n k : ℕ) (seen bytes : Text) → n ≡ k → drop n (seen ++ bytes) ≡ drop k (seen ++ bytes)
drop_all n k seen bytes e = ap (λ i. drop i (seen ++ bytes)) e

newest-append_long :
    (seen bytes : Text)
    → 1024 ≤ length bytes
    → newest (seen ++ bytes) ≡ drop (length bytes - 1024) bytes
newest-append_long seen bytes h =
    drop_all (length (seen ++ bytes) - 1024) (length seen + (length bytes - 1024)) seen bytes
      (omega (arith, length-append seen bytes))
    ∙ drop-append_ge (length seen + (length bytes - 1024)) seen bytes (omega arith)
    ∙ ap (λ i. drop i bytes) (omega arith)

newest-append_short :
    (seen bytes : Text)
    → length bytes < 1024
    → newest (seen ++ bytes)
      ≡ drop (length (newest seen) + length bytes - 1024) (newest seen) ++ bytes
newest-append_short seen bytes h =
    drop_all (length (seen ++ bytes) - 1024)
      ((length seen - 1024) + (length (newest seen) + length bytes - 1024)) seen bytes
      (omega (arith, length-append seen bytes, length-drop (length seen - 1024) seen))
    ∙ drop-append ((length seen - 1024) + (length (newest seen) + length bytes - 1024)) seen bytes
        (omega (arith, length-drop (length seen - 1024) seen))
    ∙ ap (λ t. t ++ bytes)
        (sym (drop-drop (length (newest seen) + length bytes - 1024) (length seen - 1024) seen))

spilled : Text → Text → Text
spilled old bytes = drop (length old + length bytes - 1024) old ++ bytes

bytes-push_short :
    (buffer : TailBuffer) (bytes : Text)
    → leb 1024 (length bytes) ≡ false
    → (push buffer bytes).bytes ≡ spilled buffer.bytes bytes
unfolding push spilled
bytes-push_short buffer bytes short =
    elim (Bool-cases (ltb 0 (length buffer.bytes + length bytes - 1024))) [
      | inl over ↦ rw short (rw over)
      | inr fits ↦
          let none : length buffer.bytes + length bytes - 1024 ≡ 0 =
            omega (arith, ltb→ge 0 (length buffer.bytes + length bytes - 1024) fits) in
          rw short (rw none)
    ]

bytes-push :
    (buffer : TailBuffer) (seen bytes : Text)
    → buffer.bytes ≡ newest seen
    → (push buffer bytes).bytes ≡ newest (seen ++ bytes)
bytes-push buffer seen bytes h = elim (Bool-cases (leb 1024 (length bytes))) [
  | inl long ↦
      unfold push in rw long (sym (newest-append_long seen bytes (leb→le 1024 (length bytes) long)))
  | inr short ↦
      bytes-push_short buffer bytes short
      ∙ ap (λ old. spilled old bytes) h
      ∙ unfold spilled in sym (newest-append_short seen bytes (leb→gt 1024 (length bytes) short))
]

truncated-push :
    (buffer : TailBuffer) (seen bytes : Text)
    → buffer.bytes ≡ newest seen
    → buffer.truncated ≡ ltb 1024 (length seen)
    → length bytes < 1024
    → (push buffer bytes).truncated ≡ ltb 1024 (length (seen ++ bytes))
unfolding push
truncated-push buffer seen bytes h t short =
    let size = ap length h in
    ground (arith, length-append seen bytes, length-drop (length seen - 1024) seen)

push_all-bytes :
    (buffer : TailBuffer) (seen : Text) (pieces : List Text)
    → buffer.bytes ≡ newest seen
    → (push_all buffer pieces).bytes ≡ newest (seen ++ joined_pieces pieces)
unfolding push_all
push_all-bytes buffer seen [] h = rw append-nil h
push_all-bytes buffer seen (bytes ∷ pieces) h =
    push_all-bytes (push buffer bytes) (seen ++ bytes) pieces (bytes-push buffer seen bytes h)
    ∙ ap newest (append_assoc seen bytes (joined_pieces pieces))

push_all-truncated :
    (buffer : TailBuffer) (seen : Text) (pieces : List Text)
    → buffer.bytes ≡ newest seen
    → buffer.truncated ≡ ltb 1024 (length seen)
    → All (λ bytes. length bytes < 1024) pieces
    → (push_all buffer pieces).truncated ≡ ltb 1024 (length (seen ++ joined_pieces pieces))
unfolding push_all
push_all-truncated buffer seen [] h t short = rw append-nil t
push_all-truncated buffer seen (bytes ∷ pieces) h t short =
    push_all-truncated (push buffer bytes) (seen ++ bytes) pieces (bytes-push buffer seen bytes h)
      (truncated-push buffer seen bytes h t short.0) short.1
    ∙ ap (λ text. ltb 1024 (length text)) (append_assoc seen bytes (joined_pieces pieces))

-- However the output is cut into pieces, the buffer holds exactly its newest 1024 bytes, or all
-- of it if it is shorter.
pub tail_newest :
    (pieces : List Text)
    → (push_all empty pieces).bytes
      ≡ drop (length (joined_pieces pieces) - max_failure_output_bytes) (joined_pieces pieces)
tail_newest pieces = push_all-bytes empty [] pieces refl

-- If no single piece has 1024 bytes or more, the buffer says that it lost output exactly when the
-- pieces have more than 1024 bytes together.
pub tail_truncated :
    (pieces : List Text)
    → All (λ bytes. length bytes < 1024) pieces
    → (push_all empty pieces).truncated
      ≡ ltb max_failure_output_bytes (length (joined_pieces pieces))
tail_truncated pieces short = push_all-truncated empty [] pieces refl refl short
