-- ===== src/Operator/Publisher/Examples.antt =====
-- A publish over the file system in memory, with a hash that tells two inputs apart.
use jaas.Prelude.{
  ℕ, ◌≡◌, ◌≢◌, refl, inl, inr, Bool, true, false, ◌=?◌, List, [], ◌∷◌, ◌++◌, Option, none, some,
  Result, ok, err, Bytes, codes, if◌then◌else◌, length, In, member,
}
use jaas.Prelude.Action.{done}
use jaas.Storage.FileSystem.{FileEntry}
use jaas.Storage.FileSystem.Memory.{memory, memory_laws, plain, Files}
use jaas.Storage.Store.{PutResult, artifact_path, open_revision}
use jaas.Operator.Objects.{JsonnetSnippet}
use jaas.Operator.Cycle.Examples.{snippet}
use jaas.Operator.Revisions.{
  RevisionEntry, history_revisions, update_revision_history, build_keep_revisions,
}
use jaas.Operator.Publisher.{
  PublishResult, Publisher, publish, publish_keep, sha256_content_hash, source_archive_revision,
  url,
}
use jaas.Operator.Publisher.Serves.{open_revision-publish}
use jaas.Operator.Publisher.Coverage.{publish-recorded}

-- It is "a" of the rendered output and "b" of all else.
unfoldable hex : Bytes → Bytes
hex x = if x =? codes "42" then codes "a" else codes "b"

abbrev upsert : Bytes → PutResult → Bool
upsert revision res = true

abbrev p : Publisher
p = record { wired = true; base_url = codes "http://h/"; max_artifact_bytes = 0; gc_grace = 0 }

abbrev snip : JsonnetSnippet
snip = snippet (codes "s") none []

abbrev prior : List RevisionEntry
prior =
    record { revision = codes "sha256:c"; time = 1 }
    ∷ record { revision = codes "sha256:d"; time = 0 }
    ∷ []

abbrev before : Files
before =
    (codes "n/s/sha256-c.tar.gz", (codes "x", 1))
    ∷ (codes "n/s/sha256-d.tar.gz", (codes "y", 0))
    ∷ []

abbrev archive : Bytes
archive = codes "rendered.json:42;."

abbrev after : Files
after =
    (codes "n/s/sha256-a.tar.gz", (archive, 0)) ∷ (codes "n/s/sha256-c.tar.gz", (codes "x", 1)) ∷ []

abbrev result : PublishResult
result = record { revision = codes "sha256:a"; url = codes "http://h/n/s/sha256-a.tar.gz" }

ran :
    publish memory plain hex upsert p snip
      (codes "42")
      []
      (build_keep_revisions (sha256_content_hash hex (codes "42")) prior 2)
      5
      9
      before
    ≡ done result after
unfolding build_keep_revisions hex jaas.Operator.Publisher.archive_feed
    jaas.Operator.Publisher.build_entries jaas.Operator.Publisher.check_sizes
    jaas.Operator.Publisher.content_of jaas.Operator.Publisher.publish_entries
    jaas.Operator.Publisher.source_entries jaas.Operator.Revisions.add jaas.Prelude.Order.less
    jaas.Prelude.Order.sort_strings jaas.Prelude.Text.contains_byte jaas.Prelude.Text.cut
    jaas.Prelude.Text.drop_prefix jaas.Prelude.Text.has_prefix jaas.Prelude.Text.has_suffix
    jaas.Prelude.Text.replace_all jaas.Prelude.Text.split jaas.Prelude.Text.trim_suffix
    jaas.Prelude.all jaas.Sources.Clean.clean jaas.Sources.Clean.clean_loop jaas.Sources.Clean.go_up
    jaas.Sources.Clean.join_slash jaas.Sources.Clean.onto jaas.Sources.Clean.or_dot
    jaas.Sources.Clean.take_segment jaas.Sources.Entry.accept_cleaned jaas.Sources.Entry.has_hidden
    jaas.Sources.Entry.is_safe_path_byte jaas.Sources.Entry.normalise_entry
    jaas.Sources.Entry.safe_entry_name jaas.Sources.Entry.under_prefix jaas.Storage.Archive.abandon
    jaas.Storage.Archive.emit jaas.Storage.Archive.finish jaas.Storage.Archive.sorted
    jaas.Storage.Archive.write_entries jaas.Storage.Archive.write_tar_entry
    jaas.Storage.Archive.write_tar_gz jaas.Storage.FileSystem.Memory.change
    jaas.Storage.FileSystem.Memory.delete jaas.Storage.FileSystem.Memory.find
    jaas.Storage.FileSystem.Memory.first_segment jaas.Storage.FileSystem.Memory.info
    jaas.Storage.FileSystem.Memory.inside jaas.Storage.FileSystem.Memory.is_directory
    jaas.Storage.FileSystem.Memory.names_in jaas.Storage.Key.has_revision_shape
    jaas.Storage.Key.is_hex jaas.Storage.Key.is_lower_alnum
    jaas.Storage.Key.looks_like_our_artifact_filename jaas.Storage.Key.revision_filename
    jaas.Storage.Key.revision_part jaas.Storage.Key.valid_no_traversal
    jaas.Storage.Key.valid_tar_entry_path jaas.Storage.Prune.build_prune_keep_set
    jaas.Storage.Prune.earliest_newer_mtime jaas.Storage.Prune.is_victim
    jaas.Storage.Prune.select_prune_victims jaas.Storage.Prune.superseded_at jaas.Storage.Store.bump
    jaas.Storage.Store.check_key jaas.Storage.Store.check_revision_key jaas.Storage.Store.digest_of
    jaas.Storage.Store.existing jaas.Storage.Store.has_newer_sibling jaas.Storage.Store.install
    jaas.Storage.Store.place jaas.Storage.Store.prune jaas.Storage.Store.prune_candidates
    jaas.Storage.Store.prune_dir jaas.Storage.Store.put jaas.Storage.Store.put_locked
    jaas.Storage.Store.remove_victims jaas.Storage.Store.republish jaas.Storage.Store.revive
    jaas.Storage.Store.write_new member publish publish_keep sha256_content_hash
    source_archive_revision url ◌=?◌
ran = refl

open_revision-publish_example :
    (b : Bytes) × (res : PutResult) × (open_revision memory
        (codes "n")
        (codes "s")
        (codes "sha256:a")
        after
      ≡ ok (ok b))
    × (upsert (codes "sha256:a") res ≡ true)
    × (res.digest_sha256 ≡ b)
    × (res.size_bytes ≡ length b)
    × (codes "http://h/n/s/sha256-a.tar.gz"
        ≡ url (codes "http://h/") (artifact_path (codes "n") (codes "s") (codes "sha256:a")))
open_revision-publish_example =
    open_revision-publish memory plain memory_laws hex upsert p snip (codes "42") [] _ 5 9 result
      before after ran

c_listed :
    In (codes "sha256:c") (history_revisions (update_revision_history prior (codes "sha256:a") 2 9))
unfolding history_revisions update_revision_history ◌=?◌
c_listed = inr (inl refl)

c_opens :
    open_revision memory (codes "n") (codes "s") (codes "sha256:c") before ≡ ok (ok (codes "x"))
unfolding jaas.Prelude.◌=?◌ jaas.Prelude.Text.contains_byte jaas.Storage.FileSystem.Memory.find
    jaas.Storage.FileSystem.Memory.read jaas.Storage.Key.revision_filename
    jaas.Storage.Key.valid_no_traversal jaas.Storage.Store.check_revision_key open_revision
c_opens = refl

publish-recorded_example :
    (c : Bytes) × (open_revision memory (codes "n") (codes "s") (codes "sha256:c") after
      ≡ ok (ok c))
unfolding ◌=?◌
publish-recorded_example =
    publish-recorded memory plain memory_laws hex upsert p snip (codes "42") [] prior 2 9 5 9 result
      before after (codes "sha256:c") (codes "x") refl ran c_listed c_opens

-- The source output, published again unchanged: the status goes on to list two revisions, and the keep-set
-- of the publish lacks the second, since the hash of the rendered output takes its place.
abbrev sourced_prior : List RevisionEntry
sourced_prior =
    record { revision = codes "sha256:b"; time = 1 }
    ∷ record { revision = codes "sha256:d"; time = 0 }
    ∷ []

still_listed :
    history_revisions (update_revision_history sourced_prior (codes "sha256:b") 2 9)
    ≡ codes "sha256:b" ∷ codes "sha256:d" ∷ []
unfolding history_revisions jaas.Operator.Revisions.update_revision_history jaas.Prelude.◌=?◌
still_listed = refl

not_kept :
    publish_keep
      (source_archive_revision hex [])
      (build_keep_revisions (sha256_content_hash hex (codes "42")) sourced_prior 2)
    ≡ codes "sha256:a" ∷ codes "sha256:b" ∷ []
unfolding build_keep_revisions hex jaas.Operator.Publisher.archive_feed
    jaas.Operator.Publisher.sha256_content_hash jaas.Operator.Publisher.source_archive_revision
    jaas.Operator.Revisions.add jaas.Prelude.Order.sort_strings jaas.Prelude.member
    jaas.Prelude.◌=?◌ publish_keep
not_kept = refl
