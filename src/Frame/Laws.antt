-- ===== src/Frame/Laws.antt =====
-- What a client sees of a `Frame`: its bytes, whichever buffer holds them.
use tyche_engine.Common.{
  ◌≤◌, ◌≡◌, ◌≢◌, ◌↔◌, refl, sym, ap, ◌∙◌, arith, true, some, [], ◌∷◌, length, Bytes,
}
use tyche_engine.Frame.{
  Frame, sso_size, heap_marker, new, move_assign, size, bytes, to_vector, take, same,
}

take-all : (bs : Bytes) → take (length bs) bs ≡ bs
take-all [] = refl
take-all (b ∷ bs) = ap (λ t. b ∷ t) (take-all bs)

-- A frame that some construction or assignment has produced.
pub record IsFrame (f : Frame) : Type 0 where
  pub on_heap : f.inline_size ≡ heap_marker → f.heap_ptr ≡ some (bytes f)
  pub sized : length (bytes f) ≡ size f
  pub inline : f.inline_size ≢ heap_marker → f.inline_size ≤ sso_size

pub new-IsFrame : (bs : Bytes) → IsFrame (new bs)
unfolding new bytes size
new-IsFrame bs = record {
  on_heap = λ e. ground arith;
  sized = ground arith;
  inline = λ n. ground arith;
}

bytes-new : (bs : Bytes) → bytes (new bs) ≡ bs
unfolding new bytes
bytes-new bs = ground arith

pub to_vector_lem : {f : Frame} → IsFrame f → to_vector f ≡ bytes f
unfolding to_vector
to_vector_lem {f} v = ap (λ n. take n (bytes f)) (sym v.sized) ∙ take-all (bytes f)

-- A frame made of bytes gives these bytes back, and their number as its size.
pub to_vector-new : (bs : Bytes) → (to_vector (new bs) ≡ bs) × (size (new bs) ≡ length bs)
to_vector-new bs = (
  to_vector_lem (new-IsFrame bs) ∙ bytes-new bs,
  sym (new-IsFrame bs).sized ∙ ap length (bytes-new bs),
)

bytes-move_assign : (self other : Frame) → bytes (move_assign self other).0 ≡ bytes other
unfolding move_assign bytes
bytes-move_assign self other = ground arith

size-move_assign : (self other : Frame) → size (move_assign self other).0 ≡ size other
unfolding move_assign size
size-move_assign self other = ground arith

move_assign-IsFrame :
    (self : Frame) {other : Frame} → IsFrame other → IsFrame (move_assign self other).0
unfolding move_assign
move_assign-IsFrame self {other} v = record {
  on_heap = λ e. ground (arith, v.on_heap, bytes-move_assign self other);
  sized = ap length (bytes-move_assign self other) ∙ v.sized ∙ sym (size-move_assign self other);
  inline = λ n. ground (arith, v.inline);
}

nothing_left : (self other : Frame) → to_vector (move_assign self other).1 ≡ []
unfolding move_assign to_vector size bytes
nothing_left self other = ground arith

-- Assigning a frame by moving gives the bytes of the other frame, whichever buffers the two used,
-- leaves the other one empty, and keeps the representation in order.
pub move_assign_lem :
    (self : Frame) {other : Frame}
    → IsFrame other
    → IsFrame (move_assign self other).0
      × (to_vector (move_assign self other).0 ≡ to_vector other)
      × (to_vector (move_assign self other).1 ≡ [])
move_assign_lem self {other} v = (
  moved,
  to_vector_lem moved ∙ bytes-move_assign self other ∙ sym (to_vector_lem v),
  nothing_left self other,
)
  where
    moved : IsFrame (move_assign self other).0
    moved = move_assign-IsFrame self v

-- Two frames with representations in order are equal for `==` exactly if they have the same bytes.
pub same_iff :
    {f g : Frame} → IsFrame f → IsFrame g → (same f g ≡ true) ↔ (to_vector f ≡ to_vector g)
unfolding same to_vector
same_iff {f} {g} v w = (λ h. ground arith, λ h. ground (arith, lengths h, h))
  where
    lengths : to_vector f ≡ to_vector g → size f ≡ size g
    lengths h = sym v.sized ∙ ap length (sym (to_vector_lem v) ∙ h ∙ to_vector_lem w) ∙ w.sized
