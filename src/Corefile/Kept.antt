-- ===== src/Corefile/Kept.antt =====
-- Which notes `getNoteData` of elf_common.cpp gives, and that its loop ends.
use pystack.Prelude.{
  ℕ, zero, suc, ◌-◌, ◌<◌, inl, inr, arith, Bool, true, false, Bool-cases, Option-cases, Option,
  none, some, List, [], length, ltb, ltb→lt, add64,
}
use pystack.Memory.Maps.{Bytes}
use pystack.Corefile.{NoteData}
use pystack.Corefile.Notes.{
  Note, Chunk, NoteElf, Collected, collected, open_behaviour, out_of_fuel, add_chunk, keep_note,
  data_from_note_section, NoteSegment, note_segment_data, get_note_data, GoesOn,
}

-- A loop that does not go on for ever.
abbrev pub HasStopped : Collected → Type 0
HasStopped (collected notes) = Unit {0}
HasStopped open_behaviour = Unit {0}
HasStopped out_of_fuel = ⊥

chunk-HasStopped :
    (e : NoteElf) (note : Note) (chunk : Option Chunk) (rest : Collected)
    → HasStopped rest
    → HasStopped (add_chunk e note chunk rest)
chunk-HasStopped e note none rest h = h
chunk-HasStopped e note (some chunk) (collected notes) h = tt
chunk-HasStopped e note (some chunk) open_behaviour h = tt
chunk-HasStopped e note (some chunk) out_of_fuel h = h

keep_note-HasStopped :
    (e : NoteElf) (p_offset : ℕ) (note : Note) (wanted : Option Bool) (rest : Collected)
    → HasStopped rest
    → HasStopped (keep_note e p_offset note wanted rest)
keep_note-HasStopped e p_offset note none rest h = tt
keep_note-HasStopped e p_offset note (some false) rest h = h
keep_note-HasStopped e p_offset note (some true) rest h =
    chunk-HasStopped e note (e.rawchunk (add64 p_offset note.desc_offset) note.header.n_descsz) rest
      h

data_from_note_section-HasStopped :
    (e : NoteElf) (type p_offset : ℕ) (buffer : Bytes) (fuel note_offset : ℕ)
    → GoesOn e
    → length buffer - note_offset < fuel
    → HasStopped (data_from_note_section e type p_offset buffer fuel note_offset)
unfolding data_from_note_section
data_from_note_section-HasStopped e type p_offset buffer zero note_offset goes h =
    absurd (omega arith)
data_from_note_section-HasStopped e type p_offset buffer (suc fuel) note_offset goes h =
    elim (Bool-cases (ltb note_offset (length buffer))) [
      | inr f ↦ rw f tt
      | inl f ↦ elim (Option-cases (e.getnote p_offset note_offset)) [
        | inl g ↦ rw (f, g) tt
        | inr (note, g) ↦
            let later = goes p_offset note_offset note g in
            let inside = ltb→lt note_offset (length buffer) f in
            rw (f, g)
              (keep_note-HasStopped e p_offset note _ _ (
                data_from_note_section-HasStopped e type p_offset buffer fuel note.next_offset goes
                  (omega (arith, later, inside, h))))
      ]
    ]

-- Where gelf_getnote always goes on to a later note, the search for the notes of a type ends within as
-- many rounds as the segment has bytes, and one.
pub get_note_data-HasStopped :
    (e : NoteElf) (headers : Option (List (Option NoteSegment))) (type : ℕ)
    → GoesOn e
    → HasStopped (get_note_data e headers type)
unfolding get_note_data
get_note_data-HasStopped e none type goes = tt
get_note_data-HasStopped e (some headers) type goes =
    elim (Option-cases (note_segment_data e headers)) [
      | inl f ↦ rw (get_note_data, f) tt
      | inr ((p_offset, buffer), f) ↦
          rw (get_note_data, f)
            (data_from_note_section-HasStopped e type p_offset buffer (suc (length buffer)) 0 goes
              (omega arith))
    ]

notes_of : Collected → List NoteData
notes_of (collected notes) = notes
notes_of c = []
