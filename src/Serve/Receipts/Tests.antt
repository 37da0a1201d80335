-- ===== src/Serve/Receipts/Tests.antt =====
-- Examples for hydralisk/serve/receipts.py: the store.
use hydralisk.Prelude.{◌≡◌, refl, String, true, none, some, [], ◌∷◌}
use hydralisk.Serve.Receipts.{RunReceipt, write, is_run_ref, put_file, after_prefix, hex_end}
use hydralisk.Serve.Receipts.Store.{AllSafe, is_run_ref-AllSafe}

abbrev a_run : String
a_run = "hydralisk-run-0123456789abcdef0123456789abcdef"

abbrev a_receipt : RunReceipt
a_receipt = record {
  run_ref = a_run;
  served_alias = "khala";
  model_revision = none;
  usage = none;
  ttft_ms = none;
  wall_ms = 12;
  authorization = none;
  blockers = "unknown_model_revision" ∷ [];
}

write-a_receipt : write true a_receipt [] ≡ some ((a_run, a_receipt) ∷ [])
unfolding write is_run_ref after_prefix hex_end put_file
write-a_receipt = refl

is_run_ref-AllSafe_example : AllSafe a_run
unfolding is_run_ref after_prefix hex_end
is_run_ref-AllSafe_example = is_run_ref-AllSafe a_run refl
