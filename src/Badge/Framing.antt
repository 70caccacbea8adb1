-- ===== src/Badge/Framing.antt =====
-- The tags that a reader sends are those that were put on the line.
use mathlib.Core.List.{append_assoc}
use chik.Prelude.{
  All, List, [], ap, arith, concat, false, length, map, suc, ℕ, ◌++◌, ◌+◌, ◌∙◌, ◌∷◌, ◌≡◌, ◌≢◌,
}
use chik.Badge.{MiFareTag, Read, a_tag, decode, read_tag, read_tags, terminator_tag}

-- A tag as the reader writes it: bytes before the terminator, the byte that is not looked at, and the tag.
pub record Frame : Type 0 where
  pub noise : List ℕ
  pub unknown_field : ℕ
  pub tag : MiFareTag

abbrev pub whole : List ℕ → Read
whole bytes = record { bytes = bytes; has_error = false }

-- Its reads: byte by byte up to the terminator, then field by field.
abbrev pub frame_reads : Frame → List Read
frame_reads f =
    map (λ b. whole (b ∷ [])) f.noise
    ++ (whole (terminator_tag ∷ [])
        ∷ whole f.tag.sak
        ∷ whole (f.unknown_field ∷ [])
        ∷ whole f.tag.atqa
        ∷ whole f.tag.id
        ∷ [])

-- The fields have their sizes, and no earlier byte is a terminator.
abbrev pub IsFrame : Frame → Type 0
IsFrame f =
    All (λ b. b ≢ terminator_tag) f.noise
    × (length f.tag.sak ≡ 1)
    × (length f.tag.atqa ≡ 2)
    × (length f.tag.id ≡ 4)

read_tag_frame :
    (u : ℕ) (t : MiFareTag) (rest : List Read)
    → length t.sak ≡ 1
    → length t.atqa ≡ 2
    → length t.id ≡ 4
    → read_tag (whole t.sak ∷ whole (u ∷ []) ∷ whole t.atqa ∷ whole t.id ∷ rest) ≡ (a_tag t, rest)
unfolding read_tag
read_tag_frame u t rest sak atqa id = rw (sak, atqa, id)

decode_frame :
    (noise : List ℕ) (u : ℕ) (t : MiFareTag) (rest : List Read)
    → All (λ b. b ≢ terminator_tag) noise
    → length t.sak ≡ 1
    → length t.atqa ≡ 2
    → length t.id ≡ 4
    → decode (frame_reads (record { noise = noise; unknown_field = u; tag = t }) ++ rest)
      ≡ (a_tag t, rest)
unfolding decode
decode_frame [] u t rest clean sak atqa id = read_tag_frame u t rest sak atqa id
decode_frame (b ∷ noise) u t rest (other, clean) sak atqa id =
    ground (arith, decode_frame noise u t rest clean sak atqa id)

read_tags_step :
    (rounds : ℕ) (reads rest : List Read) (t : MiFareTag)
    → decode reads ≡ (a_tag t, rest)
    → read_tags (suc rounds) reads ≡ t ∷ read_tags rounds rest
unfolding read_tags
read_tags_step rounds reads rest t result = ground arith

-- From any number of frames, with any bytes but terminators between them, of which every field comes in one read
-- that gives the whole of it, the loop sends the tags of the frames, each once and in order, and then goes on with
-- what follows them: in one round for each frame.
pub read_tags-frames :
    (frames : List Frame) (rounds : ℕ) (rest : List Read)
    → All IsFrame frames
    → read_tags (length frames + rounds) (concat (map frame_reads frames) ++ rest)
      ≡ map (λ f. f.tag) frames ++ read_tags rounds rest
read_tags-frames [] rounds rest good = ap (λ (n : ℕ). read_tags n rest) (omega arith)
read_tags-frames (f ∷ frames) rounds rest ((clean, sak, atqa, id), good) =
    let others : List Read = concat (map frame_reads frames) ++ rest in
    let count : suc (length frames) + rounds ≡ suc (length frames + rounds) = omega arith in
    rw (count, append_assoc (frame_reads f) (concat (map frame_reads frames)) rest)
      (read_tags_step (length frames + rounds) (frame_reads f ++ others) others f.tag
          (decode_frame f.noise f.unknown_field f.tag others clean sak atqa id)
        ∙ ap (λ (ts : List MiFareTag). f.tag ∷ ts) (read_tags-frames frames rounds rest good))
