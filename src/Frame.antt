-- ===== src/Frame.antt =====
-- src/tyche/cpp/engine/topic_queue.h: `Frame`, a byte buffer that holds up to 64 bytes in place and
-- a longer one on the heap, and `QueueItem`.
pub mod Laws
use tyche_engine.Common.{
  ℕ, zero, suc, ◌≡◌, Bool, true, false, Option, none, some, List, [], ◌∷◌, map, length, leb, ltb,
  ◌==◌, if◌then◌else◌, Bytes, bytes_discrete, ite,
}

abbrev pub sso_size : ℕ
sso_size = 64

-- `_size == 0xFF` marks a frame on the heap.
abbrev pub heap_marker : ℕ
heap_marker = 0xff

-- `sso_buf` is the used part of `_sso_buf`; `heap_ptr` is `none` for a null pointer.
pub record Frame : Type 0 where
  pub inline_size : ℕ
  pub sso_buf : Bytes
  pub heap_ptr : Option Bytes
  pub heap_len : ℕ

-- `Frame()`
abbrev pub no_frame : Frame
no_frame = record { inline_size = 0; sso_buf = []; heap_ptr = none; heap_len = 0 }

-- `Frame(data, len)`
unfoldable pub new : Bytes → Frame
new bs =
    if leb (length bs) sso_size
    then record no_frame { inline_size = length bs; sso_buf = bs }
    else record no_frame { inline_size = heap_marker; heap_ptr = some bs; heap_len = length bs }

-- The copy constructor: a new heap buffer for a frame on the heap.
unfoldable pub copy : Frame → Frame
copy other =
    let base = record no_frame { inline_size = other.inline_size; heap_len = other.heap_len } in
    if other.inline_size == heap_marker
    then record base { heap_ptr = other.heap_ptr }
    else record base { sso_buf = other.sso_buf }

-- Copy assignment to another frame than `other`. The buffer that is not in use stays as it was.
unfoldable pub assign : Frame → Frame → Frame
assign self other =
    let base = record self { inline_size = other.inline_size; heap_len = other.heap_len } in
    if other.inline_size == heap_marker
    then record base { heap_ptr = other.heap_ptr }
    else record base { sso_buf = other.sso_buf }

-- The move constructor: the new frame, and what is left of `other`.
unfoldable pub move : Frame → Frame × Frame
move other =
    let base = record no_frame { inline_size = other.inline_size; heap_len = other.heap_len } in
    if other.inline_size == heap_marker
    then (
      record base { heap_ptr = other.heap_ptr },
      record other { heap_ptr = none; inline_size = 0; heap_len = 0 },
    )
    else (record base { sso_buf = other.sso_buf }, record other { inline_size = 0; heap_len = 0 })

-- Move assignment to another frame than `other`.
unfoldable pub move_assign : Frame → Frame → Frame × Frame
move_assign self other =
    let base = record self { inline_size = other.inline_size; heap_len = other.heap_len } in
    if other.inline_size == heap_marker
    then (
      record base { heap_ptr = other.heap_ptr },
      record other { heap_ptr = none; inline_size = 0; heap_len = 0 },
    )
    else (record base { sso_buf = other.sso_buf }, record other { inline_size = 0; heap_len = 0 })

unfoldable pub size : Frame → ℕ
size f = if f.inline_size == heap_marker then f.heap_len else f.inline_size

unfoldable pub empty : Frame → Bool
unfolding size
empty f = size f == 0

abbrev heap_bytes : Option Bytes → Bytes
heap_bytes none = []
heap_bytes (some bs) = bs

-- The bytes behind `data()`; a null pointer has none.
unfoldable pub bytes : Frame → Bytes
bytes f = if f.inline_size == heap_marker then heap_bytes f.heap_ptr else f.sso_buf

abbrev take : ℕ → Bytes → Bytes
take zero bs = []
take (suc n) [] = []
take (suc n) (b ∷ bs) = b ∷ take n bs

-- `{p, p + n}`
unfoldable pub to_vector : Frame → Bytes
to_vector f = take (size f) (bytes f)

-- `operator==`: equal sizes, and `memcmp` of that many bytes.
unfoldable pub same : Frame → Frame → Bool
same f g =
    if size f == size g
    then ite (bytes_discrete (take (size f) (bytes f)) (take (size f) (bytes g))) true false
    else false

-- Times are counted in a unit that the seconds of the source are multiples of.
pub record QueueItem : Type 0 where
  pub enqueue_time : ℕ
  pub frames : List Frame

abbrev pub no_item : QueueItem
no_item = record { enqueue_time = 0; frames = [] }

-- `QueueItem(t, vector<vector<uint8_t>>)`
unfoldable pub item_of_bytes : ℕ → List Bytes → QueueItem
unfolding new
item_of_bytes t f = record { enqueue_time = t; frames = map new f }
