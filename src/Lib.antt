-- ===== src/Lib.antt =====
-- Verification of Viengoos, the kernel and its run-time libraries.
--
-- The kernel names objects by capabilities. A capability designates an object by its identifier and
-- version, and takes part in address translation. The parts of the program and the modules that
-- model them:
--
-- * libviengoos/viengoos/math.h (vg_msb, vg_lsb): Math. The compiler's builtins are given their
--   documented meaning; the width of the word is a parameter, 32 for uintptr_t on ia32.
-- * libviengoos/viengoos/addr.h (VG_ADDR and vg_addr_*): Addr. A 64-bit word that packs a prefix and
--   its depth; a failed assert is `none`. Addr.Meaning says which word means which bits.
-- * libviengoos/viengoos/addr-trans.h (VG_CAP_ADDR_TRANS_*): AddrTrans. The guard, the subpage and
--   their setters, with the widths of the bit fields.
-- * libviengoos/viengoos/cap.h (enum vg_cap_type, struct vg_cap, vg_cap_copy_x): Cap, Cap.Kind and
--   Cap.Copy, as the kernel compiles them (RM_INTERN). cap_shootdown is a parameter there: it takes a
--   world and a capability, and gives both back.
-- * viengoos/cap.c (vg_cap_to_object) and libviengoos/viengoos/folio.h (vg_folio_object_cap): Object.
--   What object_find answers is a function from identifiers to objects.
-- * libhurd-mm/as-lookup.c (as_lookup_rel) and libhurd-mm/bits.h: AddressSpace. One round of the loop
--   is the function `round`, composed of the checks in the order of the source; the loop runs on fuel.
--   One round more than the address has bits is enough where no page table is cut into 256 subpages.
--   The debugging output and the second pass that it makes are left out.
-- * libhurd-ihash/ihash.c (hurd_ihash_*), as the kernel compiles it: Ihash, with a word size of 32. The
--   loops of find_index and replace_one run on as many rounds as the table has slots; for an odd size
--   they end by their own test before that (Ihash.Probe). Every operation gives `none` if the rounds
--   ran out, so that a theorem that it gives `some` is one of termination.
-- * libhurd-mm/as-compute-gbits.h (as_compute_gbits_cappage): AsGuard, on natural numbers; where the
--   source asserts that a difference is not negative the model gives `none` if it is.
-- * viengoos/zalloc.c and zalloc.h (zfree, zalloc): Zalloc, with 32-bit addresses and 19 zones. A zone
--   is the list of the addresses of its blocks. A `panic` or a failed assert is `panics`, an access
--   past the array of zones `past_zones`. The loop of zfree runs on the number of pages, and one, which
--   is enough since each round takes a page at least (Zalloc.Free); add_block climbs the list of zones.
--   The source keeps the links inside the free blocks, so that the lists of addresses stand for it as
--   long as no memory is free twice: zfree and memory_add are for memory that is not free yet.
-- * viengoos/object.c (object_wait_queue_*), with the fields of viengoos/messenger.h: WaitQueue. The
--   messengers that wait on an object are a doubly-linked list of oids: `next` of the last one is the
--   object and `prev` of the first one is the last. A messenger, or the flag and the first messenger
--   of an object, is looked up by its oid; which oids object_find finds is a function. A failed assert
--   is `none`. WaitQueue.Chain says which worlds hold which queue.
-- * viengoos/server.c (VG_futex: the helper `wake`, FUTEX_WAIT, FUTEX_WAKE, FUTEX_WAKE_OP and
--   FUTEX_CMP_REQUEUE): Futex, Futex.Call and Futex.Op. The loop of `wake` runs on fuel, of which more
--   than the number of waiters is enough; Futex.Plan says by lists what it is to do. Futex.Turn.Replies
--   says what is relied on of vg_futex_reply, a parameter: it may fail, which is `none`, and may put
--   its messenger on the queue of an object that is not quiet, for another reason.
-- * viengoos/memory.c (memory_reserve, memory_is_reserved, memory_add, memory_reservation_clear):
--   Memory. The tree of the reservations (libhurd-btree) is their list in order; the search in it is a
--   parameter, of which Memory.Order.Finder says what it promises, and a descriptor is in use if it is
--   in the list. Memory.Reserve holds memory_reserve. The loop of memory_add runs on the number of the
--   pages up to its end, and two, which is enough since each turn passes a page at least.
-- * viengoos/activity.h (activity_for_each_ancestor, activity_charge) and the quota of folios in
--   folio_alloc and folio_free of viengoos/object.c: Activity. An activity is named by a number, and of
--   its fields those are kept that this code and object_desc_claim read or write. The loops over the
--   ancestors run on fuel, of which more than the number of the ancestors is enough. Activity.Path says
--   which activities are on the way up to the root. The call of folio_alloc with no activity, by which
--   the kernel starts, is left out.
-- * viengoos/object.c (object_desc_claim) with struct object_desc of viengoos/object.h: Claim. A list is
--   that of the names of its descriptors, with a flag for each node that says if it is attached, and a
--   priority counts from VG_OBJECT_PRIORITY_MIN. The asserts of the debugging build on the counts are
--   left out; Claim.Accounts says what they check, and more.
-- * libbitarray/bit-array.h (bit_alloc and the other operations): BitArray. An array is the function from
--   the place of a byte to the byte. The loop of bit_alloc runs on as many rounds as the array has bytes,
--   which is enough (BitArray.Scan). BitArray.Bytes has the laws of the bits of a byte.
--
-- Addr, AddrTrans and Cap know nothing of objects; Object joins capabilities to a store of objects,
-- and AddressSpace walks from capability to object by the bits of an address. Common holds the
-- Boolean tests, lists over the native numbers and the bind of `Option`; Word the laws of shifts and
-- masks at every width. Memory gives its pages to the pool of Zalloc by zfree, and Futex works on the
-- queues by the operations of WaitQueue alone. Claim charges and credits activities by Activity.
--
-- Not modelled: the kernel's other system calls (viengoos/server.c), the scheduler, objects and
-- pagers, the user-level memory management, the B-tree, the slab allocator and the C libraries.
pub mod Common
pub mod Word
pub mod Math
pub mod Addr
pub mod AddrTrans
pub mod Cap
pub mod Object
pub mod AddressSpace
pub mod Ihash
pub mod Zalloc
pub mod AsGuard
pub mod WaitQueue
pub mod Futex
pub mod Memory
pub mod Activity
pub mod BitArray
pub mod Claim
