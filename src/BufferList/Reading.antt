-- ===== src/BufferList/Reading.antt =====
-- core/buffer_list.go: what `GetData` returns.
use akavefs.Prelude.{
  lt→ltb, ℕ, ◌+◌, ◌<◌, ◌≡◌, refl, Bool, true, false, inl, inr, some, List, [], ◌∷◌, arith, word,
  ltb, leb, Bool-cases, Option-cases, ltb→lt, ltb→le, add64-eq,
}
use akavefs.BTree.{BTree, from}
use akavefs.BufferList.{FileBuffer, BufferList}
use akavefs.BufferList.Edit.{buf_end}
use akavefs.BufferList.Read.{ReadData, ok, add_chunk, get_data_from, get_data, min64, with_id}
use akavefs.BufferList.Holes.{IsPast, Chain-IsPast, from-IsPast, entries-from}
use akavefs.BufferList.Shape.{
  Chain, IsWellFormed, value_of, buf_end-eq, Chain-from, covering-before,
}
use akavefs.BufferList.Chunks.{buffer-Chunk, no_chunk}
use akavefs.BufferList.Outcomes.{Outcome, covering-head, Outcome-cons, Outcome-last}

-- A round of `GetData` that reads a chunk.
module _ (cur end e key : ℕ) (ids : Bool) (b : FileBuffer) (es : List (ℕ × FileBuffer))
    (d : ReadData) (after : List (List ℕ)) (met : ltb cur b.offset ≡ false)
    (near : leb end b.offset ≡ false) (ld : b.loading ≡ false) (m : min64 end (buf_end b) ≡ e)
    (run : add_chunk b cur e d.chunks ≡ some after) where
  abbrev next_data : ReadData
  next_data = record { chunks = after; ids = with_id ids b d.ids }

  get_data_from-more :
      ltb e end ≡ true
      → get_data_from cur end ids ((key, b) ∷ es) d ≡ get_data_from e end ids es next_data
  unfolding get_data_from
  get_data_from-more more = rw (met, near, ld, m, run, m, more, m)

  get_data_from-stop :
      ltb e end ≡ false → get_data_from cur end ids ((key, b) ∷ es) d ≡ some (ok next_data)
  unfolding get_data_from
  get_data_from-stop stop = rw (met, near, ld, m, run, m, stop)

get_data_from-Outcome :
    (cur end lo : ℕ) (ids : Bool) (es : List (ℕ × FileBuffer)) (d : ReadData)
    → Chain lo es
    → IsPast cur es
    → cur < end
    → Outcome cur end es d.chunks (get_data_from cur end ids es d)
unfolding get_data_from
get_data_from-Outcome cur end lo ids [] d c past lt =
    rw (lt→ltb cur end lt, Outcome) (cur, omega arith, lt, refl)
get_data_from-Outcome cur end lo ids ((key, b) ∷ es) d c past lt =
    let v = c.0 in
    let k = buf_end-eq key b v in
    elim (Bool-cases (ltb cur b.offset)) [
      | inl gap ↦
          rw (gap, Outcome)
            (
              cur,
              omega arith,
              lt,
              covering-before cur b.offset ((key, b) ∷ es) (c.0, omega arith, c.2)
                  (ltb→lt cur b.offset gap),
            )
      | inr met ↦
          let lo' = ltb→le cur b.offset met in
          let near : leb end b.offset ≡ false = ground arith in
          elim (Bool-cases b.loading) [
            | inl ld ↦
                rw (met, near, ld, Outcome)
                  (cur, omega arith, lt, b, covering-head key cur b es lo' past, ld)
            | inr ld ↦ elim (Bool-cases (ltb key end)) [
              | inl more ↦
                  let inside = ltb→lt key end more in
                  let m : min64 end key ≡ key = ground arith in
                  elim (Option-cases (value_of b cur)) [
                    | inl gone ↦
                        rw
                          (
                            met,
                            near,
                            ld,
                            k,
                            m,
                            no_chunk key b v cur key lo' (omega arith) (omega arith) d.chunks past
                                gone,
                            Outcome,
                          )
                          (cur, omega arith, lt, b, covering-head key cur b es lo' past, ld, gone)
                    | inr (w, there) ↦
                        let (after, run, chunk) =
                          buffer-Chunk key b v cur key lo' (omega arith) (omega arith) d.chunks w
                            there in
                        let d' : ReadData = record { chunks = after; ids = with_id ids b d.ids } in
                        let step : get_data_from cur end ids ((key, b) ∷ es) d
                            ≡ get_data_from key end ids es d' =
                          get_data_from-more cur end key key ids b es d after met near ld (rw k m)
                            run more in
                        rw step (
                          Outcome-cons cur end key b es d.chunks after
                            (get_data_from key end ids es d') lo' (omega arith) ld chunk
                            (get_data_from-Outcome key end key ids es d' c.2
                              (Chain-IsPast key es c.2) inside))
                  ]
              | inr last ↦
                  let within = ltb→le key end last in
                  let m : min64 end key ≡ end = ground arith in
                  let stop : ltb end end ≡ false = ground arith in
                  elim (Option-cases (value_of b cur)) [
                    | inl gone ↦
                        rw
                          (
                            met,
                            near,
                            ld,
                            k,
                            m,
                            no_chunk key b v cur end lo' (omega arith) within d.chunks lt gone,
                            Outcome,
                          )
                          (cur, omega arith, lt, b, covering-head key cur b es lo' past, ld, gone)
                    | inr (w, there) ↦
                        let (after, run, chunk) =
                          buffer-Chunk key b v cur end lo' (omega arith) within d.chunks w there in
                        let d' : ReadData = record { chunks = after; ids = with_id ids b d.ids } in
                        let step : get_data_from cur end ids ((key, b) ∷ es) d ≡ some (ok d') =
                          get_data_from-stop cur end end key ids b es d after met near ld (rw k m)
                            run stop in
                        rw step (Outcome-last cur end key b es d.chunks d' lo' within ld chunk)
                  ]
            ]
          ]
    ]

module _ ⦃bt : BTree⦄ (l : BufferList) (w : IsWellFormed l) (offset size : ℕ) (some_byte : 0 < size)
    (fits : offset + size < word) where
  -- `GetData` of a range that is not empty and ends below 2 ^ 64, on a well-formed list. If it
  -- returns data, the chunks joined are the bytes of the range, one for each offset; if it returns
  -- the error that a buffer is missing or loading, an offset of the range is not covered, or is
  -- covered by a loading buffer; and it panics only if a buffer in the range is not loading and has
  -- not got its bytes in memory.
  pub get_data-Outcome :
      (return_ids : Bool)
      → Outcome offset
          (offset + size)
          (from (offset + 1) (bt.ascend l.at 0))
          []
          (get_data l offset size return_ids)
  unfolding get_data
  get_data-Outcome return_ids =
      let es = bt.ascend l.at 0 in
      rw (add64-eq offset size fits, entries-from l w offset size some_byte fits)
        (get_data_from-Outcome offset (offset + size) 0 return_ids (from (offset + 1) es)
          (record { chunks = []; ids = λ id. false }) (Chain-from 0 (offset + 1) es w)
          (from-IsPast offset es) (omega arith))
