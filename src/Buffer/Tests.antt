-- ===== src/Buffer/Tests.antt =====
-- Runs of base/buffer.c, and the theorems about it at small buffers.
use wee.Base.{◌≡◌, refl, none, some, [], ◌∷◌, arith}
use wee.Base.Memory.{slice, blit}
use wee.Buffer.{
  Buffer, create_ex, readable, writable, prependable, peek, write_locked, retrieve, append,
  ensure_writable, make_space, make_room, fill, has_written,
}
use wee.Buffer.Valid.{IsValid, create_ex-IsValid}
use wee.Buffer.Content.{contents}
use wee.Buffer.Fifo.{Appended, append-Appended}
use wee.Buffer.Front.{Left, retrieve-Left}
use wee.Buffer.Words.{int32, append_as, read_as, read_as-append_as}
use wee.Buffer.ReadFd.{read_fd, offered}
use wee.Buffer.Received.{read_fd-Appended}
use wee.Buffer.Search.{Finds, find_str, find_crlf, find_str-Finds}
use wee.Samples.{pair, fresh, holding, holding-Holds}

-- The third byte does not fit: the bytes move to the front of a bigger block.
append_grows :
    append pair (1 ∷ 2 ∷ 3 ∷ [])
    ≡ some (record pair {
      read_idx = 2;
      write_idx = 7;
      sz = 8;
      buf = 0 ∷ 0 ∷ 7 ∷ 8 ∷ 1 ∷ 2 ∷ 3 ∷ 0 ∷ [];
    })
unfolding append ensure_writable make_space make_room has_written fill blit slice write_locked
append_grows = refl

append-Appended_example :
    (b : Buffer) × (append pair (1 ∷ 2 ∷ 3 ∷ []) ≡ some b) × Appended pair (1 ∷ 2 ∷ 3 ∷ []) b
unfolding write_locked
append-Appended_example =
    append-Appended {b = pair} (1 ∷ 2 ∷ 3 ∷ []) (omega arith) (omega arith) refl (omega arith)

retrieve-Left_example : (b : Buffer) × (retrieve pair 1 ≡ some b) × Left pair (8 ∷ []) b
unfolding slice
retrieve-Left_example = retrieve-Left {b = pair} (7 ∷ []) (8 ∷ []) (omega arith) refl

create_ex-IsValid_example :
    IsValid fresh × (readable fresh ≡ 0) × (writable fresh ≡ 4) × (prependable fresh ≡ 8)
unfolding create_ex
create_ex-IsValid_example = create_ex-IsValid 4 8 (omega arith) refl

-- `pair` with a byte of its front room in use
abbrev used : Buffer
used = record pair { read_idx = 1 }

read_as-append_as_example :
    (b : Buffer) × (b' : Buffer) × (append_as int32 fresh 0xdeadbeef ≡ some b)
    × (read_as int32 b ≡ some (0xdeadbeef, b'))
    × IsValid b'
    × (contents b' ≡ [])
unfolding write_locked slice
read_as-append_as_example =
    read_as-append_as {b = fresh} int32 0xdeadbeef (omega arith) (omega arith) refl refl
      (omega arith) (omega arith)

-- the text of one byte, with its 0
abbrev word : Buffer
word = record pair { buf = 0 ∷ 0 ∷ 9 ∷ 7 ∷ 0 ∷ 4 ∷ [] }

-- One byte of three fits the block.
read_fd-Appended_example :
    (b : Buffer) × (read_fd (some (1 ∷ 2 ∷ 3 ∷ [])) 0 pair ≡ some (some 3, 0, b))
    × Appended pair (1 ∷ 2 ∷ 3 ∷ []) b
unfolding offered write_locked writable
read_fd-Appended_example =
    read_fd-Appended {b = pair} (1 ∷ 2 ∷ 3 ∷ []) 0 (omega arith) (omega arith) refl (omega arith)
      (omega arith)

abbrev found_in : Buffer
found_in = holding (9 ∷ 9 ∷ 8 ∷ 9 ∷ 8 ∷ [])

find_str-Finds_example : Finds (9 ∷ 8 ∷ []) (contents found_in) (find_str found_in (9 ∷ 8 ∷ []))
find_str-Finds_example =
    find_str-Finds {b = found_in} (9 ∷ 8 ∷ [])
      (holding-Holds (9 ∷ 9 ∷ 8 ∷ 9 ∷ 8 ∷ []) (omega arith)).valid

finds_second : find_str found_in (9 ∷ 8 ∷ []) ≡ some 1
unfolding find_str slice peek readable
finds_second = refl

no_crlf : find_crlf found_in ≡ none
unfolding find_crlf slice peek readable
no_crlf = refl
