-- ===== src/Fat/Open.antt =====
-- What `open` of kernel/fs/fat.c leaves in the heap.
use nar_os.Prelude.{
  ℕ, suc, false, true, ◌+◌, ◌^◌, ◌≡◌, ◌≢◌, ◌<◌, ◌≤◌, refl, some, List, arith, length, inl, inr, ap,
  sym, ◌∙◌, ◌++◌, length-append, [], ◌∷◌,
}
use nar_os.Prelude.Words.{update}
use nar_os.CString.{CStr}
use nar_os.KHeap.{Heap}
use nar_os.KHeap.Layout.{IsHeap, In, Chain-In}
use nar_os.KHeap.Malloc.{Allocates, malloc-Allocates}
use nar_os.Fat.{FatFs, FatWorld, fat_mode, fat_open, inode_size}

-- What a call of `open` that returns the inode `fd` has done.
pub record Opens {V : Type 0} (fs : FatFs V) (start : ℕ) (path : CStr) (mode : ℕ) (w : FatWorld V)
    (fd : ℕ) (w' : FatWorld V) : Type 0 where
  pub file : ℕ
  pub fd_block : ℕ
  pub file_block : ℕ
  pub blocks : List ℕ
  pub heap : IsHeap start w'.heap blocks
  pub fd_pointer : fd ≡ fd_block + 16
  pub file_pointer : file ≡ file_block + 16
  pub fd_listed : In fd_block blocks
  pub file_listed : In file_block blocks
  pub fd_used : (w'.heap.at fd_block).is_free ≡ false
  pub file_used : (w'.heap.at file_block).is_free ≡ false
  pub file_room : fs.fil_size ≤ (w'.heap.at file_block).size
  pub distinct : file_block ≢ fd_block
  pub linked : w'.inode_data fd ≡ file
  pub result : w'.lib ≡ (fs.f_open file path (fat_mode mode) w.lib).1

In-left : (b c : ℕ) (bs : List ℕ) → In b bs → In b (bs ++ c ∷ [])
In-left b c [] i = absurd i
In-left b c (d ∷ bs) (inl e) = inl e
In-left b c (d ∷ bs) (inr i) = inr (In-left b c bs i)

module _ (start : ℕ) (h g : Heap) (bs : List ℕ) (size p : ℕ) (v : IsHeap start h bs)
    (a : Allocates start h bs size p g) where
  -- A block of the list stays in it.
  keeps : (b : ℕ) → In b bs → In b a.blocks
  keeps b i = elim a.source [
    | inl (same, fits) ↦ rw same i
    | inr (more, top, busy) ↦ rw more (In-left b a.block bs i)
  ]

  -- A block in use is not the one that is given out.
  fresh : (b : ℕ) → In b bs → (h.at b).is_free ≡ false → b ≢ a.block
  fresh b i used e = elim a.source [
    | inl (same, (listed, unused, room)) ↦
        absurd (clash (sym used ∙ ap (λ x. (h.at x).is_free) e ∙ unused))
    | inr (more, top, busy) ↦
        let (_, below) = Chain-In h.at h.mem.ksbrk h.head start bs b v.chain i in
        absurd (omega (arith, below, e, top))
  ]
    where
      clash : false ≡ true → ⊥
      clash q = cc

  length-blocks : length a.blocks ≤ suc (length bs)
  length-blocks = elim a.source [
    | inl (same, fits) ↦ rw same (omega arith)
    | inr (more, top, busy) ↦ rw more (omega (arith, length-append bs (a.block ∷ [])))
  ]

module _ {V : Type 0} (fs : FatFs V) (n start : ℕ) where
  -- `open` of a path that FatFs opens, in a well-formed heap with room below 2 ^ 31: it returns an
  -- inode whose data is the file that FatFs filled. Both are pointers behind headers of the list that
  -- are in use and differ, the file's block is large enough, and the list stays well formed.
  pub fat_open-Opens :
      (path : CStr) (mode : ℕ) (w : FatWorld V) (bs : List ℕ)
      → IsHeap start w.heap bs
      → suc (length bs) < n
      → 0 < fs.fil_size
      → w.heap.mem.ksbrk + 44 + fs.fil_size < 2 ^ 31
      → ((file : ℕ) → (fs.f_open file path (fat_mode mode) w.lib).0 ≡ 0)
      → (fd : ℕ) × (w' : FatWorld V) × (fat_open fs n path mode w ≡ some (fd, w'))
        × Opens fs start path mode w fd w'
  unfolding fat_open
  fat_open-Opens path mode w bs v fuel some_size space ok =
      let (file, h, got, a) =
        malloc-Allocates start w.heap fs.fil_size bs n v (omega (arith, fuel)) some_size
          (omega (arith, space)) in
      let (fd, h', got', a') =
        malloc-Allocates start h inode_size a.blocks n a.heap
          (omega (arith, fuel, length-blocks start w.heap h bs fs.fil_size file v a)) (omega arith)
          (omega (arith, space, a.grows)) in
      let used : (h.at a.block).is_free ≡ false = a.used in
      let apart = fresh start h h' a.blocks inode_size fd a.heap a' a.block a.listed used in
      let same = a'.others a.block a.listed apart in
      (
        fd,
        record w {
          heap = h';
          inode_data = update w.inode_data fd file;
          lib = (fs.f_open file path (fat_mode mode) w.lib).1;
        },
        rw (got, ok file, got') refl,
        record {
          file = file;
          fd_block = a'.block;
          file_block = a.block;
          blocks = a'.blocks;
          heap = a'.heap;
          fd_pointer = a'.pointer;
          file_pointer = a.pointer;
          fd_listed = a'.listed;
          file_listed = keeps start h h' a.blocks inode_size fd a.heap a' a.block a.listed;
          fd_used = a'.used;
          file_used = same.0 ∙ used;
          file_room = omega (arith, a.room, same.1);
          distinct = apart;
          linked = ground arith;
          result = refl;
        },
      )
