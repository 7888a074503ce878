-- ===== src/ListDefinitions/Refined.antt =====
-- The lists refine plain sequences, where they can allocate.
use rpp_cpp.Base.{◌≡◌, String, List, map}
use rpp_cpp.Base.Result.{ok}
use rpp_cpp.ListDefinitions.{Messages, Buffer, list_init, data_init}
use rpp_cpp.ListDefinitions.Sequence.{Op, Reply, replies, InRange}
use rpp_cpp.ListDefinitions.Allocated.{Laws, CanAllocate, Shows}
use rpp_cpp.ListDefinitions.Simulated.{run, lists_simulated}
use rpp_cpp.ListDefinitions.Texts.{as_text, run_texts, run-run_texts, Answers, replies-Answers}

-- A List or a Data that can allocate answers any calls in range as a plain sequence does, in which a
-- resize leaves nothing but default values; so does a List of strings, except that a text is read up
-- to its first null character. No call throws. It holds if the RPC library's messages allocate, read
-- and write as documented.
pub lists_refine :
    {T : Type 0} (lib : Messages T) (default_value : T) (texts : Messages String)
    → Laws lib default_value
    → Laws texts ""
    → (ops : List (Op T)) (xs : List T) (l : Buffer lib) (memory : lib.Memory)
    → CanAllocate lib default_value l.allocator
    → Shows lib default_value (l, memory) xs
    → InRange default_value ops xs
    → (text_ops : List (Op String)) (ts : List String) (text_list : Buffer texts)
      (text_memory : texts.Memory)
    → CanAllocate texts "" text_list.allocator
    → Shows texts "" (text_list, text_memory) ts
    → InRange "" text_ops ts
    → (run lib default_value (list_init lib) ops (l, memory) ≡ ok (replies default_value ops xs))
      × (run lib default_value (data_init lib) ops (l, memory) ≡ ok (replies default_value ops xs))
      × ((rs : List (Reply String)) × (run_texts texts text_ops (text_list, text_memory) ≡ ok rs)
          × Answers text_ops ts rs)
lists_refine lib default_value texts laws text_laws ops xs l memory can s h text_ops ts text_list
      text_memory text_can text_s text_h =
    let (of_list, _, of_data) = lists_simulated lib default_value laws ops xs l memory can s h in
    let (_, of_texts, _) =
      lists_simulated texts "" text_laws text_ops ts text_list text_memory text_can text_s text_h in
    (
      of_list,
      of_data,
      (
        map as_text (replies "" text_ops ts),
        run-run_texts texts text_ops (text_list, text_memory) (replies "" text_ops ts) of_texts,
        replies-Answers text_ops ts text_h,
      ),
    )
