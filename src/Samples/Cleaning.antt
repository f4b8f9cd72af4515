-- ===== src/Samples/Cleaning.antt =====
-- The theorems on directories and on the cleaning of logs, applied to small file systems.
use xlurm.Base.{
  ℕ, ◌≡◌, refl, sym, ap, subst, inl, inr, true, none, some, [], ◌∷◌, if◌then◌else◌, nat_eq, ◌==◌,
  list_beq, beq_refl, option_eq, Text, text, text_eq, ok, int_eq,
}
use xlurm.Model.{kind_eq, state_eq}
use xlurm.Storage.{join, state_path, jobs_path, read_json, try_lock, FileSystem, named}
use xlurm.Storage.Trusted.{initialize, Metadata, Directories, found}
use xlurm.Storage.Trusted.Own.{initialize-IsOwn, Quiet, IsOwn}
use xlurm.Client.Clean.{clean}
use xlurm.Client.Clean.Removed.{IsLog, MayRemove, clean-kept, KeptElsewhere}
use xlurm.Samples.{Files, update, disk_fs, store_json_of_sample}

-- Each path has a directory; at first all are those of root.
abbrev Tree : Type 0
Tree = Text → Metadata

abbrev with_mode : Text → ℕ → Tree → Tree
with_mode p mode w q = if p == q then record (w p) { mode = mode } else w q

abbrev root_directory : Metadata
root_directory = record { is_dir = true; uid = 0; mode = 493 }

abbrev rooted : Tree
rooted path = root_directory

abbrev of_root : Directories Tree
of_root = record {
  geteuid = 0;
  ancestors = λ path. text "/var/lib" ∷ text "/var" ∷ text "/" ∷ [];
  symlink_metadata = λ path w. (found (w path), w);
  create_dir_all = λ path w. (ok tt, w);
  set_permissions = λ path mode w. (ok tt, with_mode path mode w);
}

same_directory : (a b : Metadata) → found a ≡ found b → a ≡ b
same_directory a b e = cc

of_root-Quiet : Quiet of_root (text "/var/lib/xlurm")
unfolding list_beq jobs_path join
of_root-Quiet = record {
  lstat_keeps = λ p q w. refl;
  mkdir_keeps = λ p q w meta e. e;
  chmod_sets = λ p mode w meta e dir o.
      rw (beq_refl p)
        (ap (λ (m : Metadata). found (record m { mode = mode })) (same_directory (w p) meta e));
  chmod_keeps = λ mode w meta e dir. refl;
}

set_up : (initialize of_root (text "/var/lib/xlurm") rooted).0 ≡ ok tt
unfolding initialize list_beq
set_up = refl

initialize-IsOwn_example :
    IsOwn of_root
      (text "/var/lib/xlurm")
      rooted
      (initialize of_root (text "/var/lib/xlurm") rooted).1
initialize-IsOwn_example =
    initialize-IsOwn of_root (text "/var/lib/xlurm") of_root-Quiet rooted set_up

-- On the disk of the samples, the directories are there already.
abbrev on_disk : Directories Files
on_disk = record {
  geteuid = 0;
  ancestors = λ path. text "/" ∷ [];
  symlink_metadata = λ path w. (found root_directory, w);
  create_dir_all = λ path w. (ok tt, w);
  set_permissions = λ path mode w. (ok tt, w);
}

-- The directory of jobs has a log and another file.
abbrev two_entries : FileSystem Files
two_entries = record disk_fs {
  read_dir = λ p w. (ok (named (text "1.log") ∷ named (text "1.json") ∷ []), w);
}

-- A queue without jobs, the log of the job 1 and its other file.
abbrev left_behind : Files
left_behind p =
    if p == text "/xlurm/state.json"
    then some (text "{}")
    else if p == text "/xlurm/jobs/1.log"
    then some (text "epoch 1")
    else if p == text "/xlurm/jobs/1.json"
    then some (text "train")
    else none

log_removed :
    (clean two_entries on_disk store_json_of_sample (text "/xlurm") left_behind).0 ≡ ok (1, true)
unfolding clean list_beq try_lock read_json
log_removed = refl

abbrev QueueIsThere : Files → Type 0
QueueIsThere w = w (text "/xlurm/state.json") ≡ some (text "{}")

calls-KeptElsewhere :
    KeptElsewhere two_entries on_disk store_json_of_sample (text "/xlurm") QueueIsThere
unfolding list_beq join state_path jobs_path
calls-KeptElsewhere = record {
  lstat = λ path w h. h;
  mkdir = λ path w h. h;
  chmod = λ path mode w h. h;
  opens = λ w h. h;
  locks = λ w h. h;
  reads = λ w h. h;
  lists = λ w h. h;
}

logs_are_not_the_queue :
    (path : Text)
    → IsLog (text "/xlurm") path
    → (v : Files) → QueueIsThere v
    → QueueIsThere (update path none v)
unfolding list_beq IsLog join jobs_path
logs_are_not_the_queue path (inl e) v h = subst (λ p. QueueIsThere (update p none v)) (sym e) h
logs_are_not_the_queue path (inr (stem, id, p, e)) v h =
    subst (λ p. QueueIsThere (update p none v)) (sym e) h

logs_only :
    (path : Text)
    → MayRemove two_entries on_disk store_json_of_sample (text "/xlurm") left_behind path
    → (v : Files) → QueueIsThere v
    → QueueIsThere (update path none v)
unfolding MayRemove
logs_only path may v h = logs_are_not_the_queue path may.0 v h

clean-kept_example :
    QueueIsThere (clean two_entries on_disk store_json_of_sample (text "/xlurm") left_behind).1
unfolding list_beq
clean-kept_example =
    clean-kept two_entries on_disk store_json_of_sample (text "/xlurm") QueueIsThere
      calls-KeptElsewhere left_behind logs_only refl
