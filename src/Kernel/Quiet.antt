-- ===== src/Kernel/Quiet.antt =====
-- The mutation of the stores leaves the commands alone, and the orphan event throws nothing.
use db_cluster.Prelude.{String, Bool, true, false, Option, none, some, List, [], ◌∷◌}
use db_cluster.Json.{Fields}
use db_cluster.Stores.{Host, IndexRecord}
use db_cluster.Kernel.Rules.{
  IsQuiet, call-IsQuiet, pure-IsQuiet, check-IsQuiet, throw_error-IsQuiet, bind-IsQuiet,
  catch-IsQuiet,
}
use db_cluster.Kernel.Recording.{record_provenance, staging, sweep_staged}
use db_cluster.Kernel.Arms.{
  remove_records, commit_update_entity, commit_create_entity, resolve_content, sweep_resolved,
  commit_ingest_artifact, must_exist, commit_link_evidence, perform_index_rebuild, commit_reindex,
}

module _ {W : Type 0} (host : Host W) where
  pub record_provenance-IsQuiet :
      (action actor subject store : String) (detail : Fields) (parent : Option String)
      → IsQuiet (record_provenance host action actor subject store detail parent)
  unfolding record_provenance
  record_provenance-IsQuiet action actor subject store detail parent = call-IsQuiet _

  remove_records-IsQuiet : (rs : List IndexRecord) → IsQuiet (remove_records host rs)
  unfolding remove_records
  remove_records-IsQuiet [] = pure-IsQuiet tt
  remove_records-IsQuiet (r ∷ rs) = bind-IsQuiet (call-IsQuiet _) (λ u. remove_records-IsQuiet rs)

  pub commit_update_entity-IsQuiet :
      (payload : Fields) → IsQuiet (commit_update_entity host payload)
  unfolding commit_update_entity
  commit_update_entity-IsQuiet payload = bind-IsQuiet (call-IsQuiet _) (λ prior.
      bind-IsQuiet (call-IsQuiet _) (λ events. bind-IsQuiet (check-IsQuiet _) (λ patch.
        bind-IsQuiet (call-IsQuiet _) (λ updated. bind-IsQuiet (call-IsQuiet _) (λ stale.
          bind-IsQuiet (remove_records-IsQuiet _)
            (λ u. bind-IsQuiet (call-IsQuiet _) (λ r. pure-IsQuiet _)))))))

  pub commit_create_entity-IsQuiet :
      (payload : Fields) → IsQuiet (commit_create_entity host payload)
  unfolding commit_create_entity
  commit_create_entity-IsQuiet payload =
      bind-IsQuiet (call-IsQuiet _) (λ entity. bind-IsQuiet (call-IsQuiet _) (λ r. pure-IsQuiet _))

  resolve_content-IsQuiet :
      (hash : Option String) (payload : Fields) → IsQuiet (resolve_content host hash payload)
  unfolding resolve_content
  resolve_content-IsQuiet (some hash) payload =
      bind-IsQuiet (call-IsQuiet _) (λ staged. check-IsQuiet _)
  resolve_content-IsQuiet none payload = check-IsQuiet _

  pub staging-IsQuiet : IsQuiet (staging host)
  unfolding staging
  staging-IsQuiet = record { quiet = λ cs s h. h }

  sweep_resolved-IsQuiet : (hash : Option String) → IsQuiet (sweep_resolved host hash)
  unfolding sweep_resolved sweep_staged
  sweep_resolved-IsQuiet none = pure-IsQuiet tt
  sweep_resolved-IsQuiet (some hash) = catch-IsQuiet (call-IsQuiet _) (λ e. pure-IsQuiet tt)

  pub commit_ingest_artifact-IsQuiet :
      (payload : Fields) → IsQuiet (commit_ingest_artifact host payload)
  unfolding commit_ingest_artifact
  commit_ingest_artifact-IsQuiet payload = bind-IsQuiet staging-IsQuiet (λ there.
      bind-IsQuiet (resolve_content-IsQuiet _ payload) (λ bytes.
        bind-IsQuiet (call-IsQuiet _) (λ artifact.
          bind-IsQuiet (call-IsQuiet _)
            (λ r. bind-IsQuiet (sweep_resolved-IsQuiet _) (λ u. pure-IsQuiet _)))))

  pub must_exist-IsQuiet :
      (store id : String) (there : Bool) → IsQuiet (must_exist host store id there)
  unfolding must_exist
  must_exist-IsQuiet store id true = pure-IsQuiet tt
  must_exist-IsQuiet store id false = throw_error-IsQuiet _

  pub commit_link_evidence-IsQuiet :
      (actor : String) (payload : Fields) → IsQuiet (commit_link_evidence host actor payload)
  unfolding commit_link_evidence
  commit_link_evidence-IsQuiet actor payload = bind-IsQuiet (call-IsQuiet _) (λ a.
      bind-IsQuiet (must_exist-IsQuiet _ _ a) (λ u. bind-IsQuiet (call-IsQuiet _) (λ e.
        bind-IsQuiet (must_exist-IsQuiet _ _ e)
          (λ v. bind-IsQuiet (record_provenance-IsQuiet _ _ _ _ _ _) (λ p. pure-IsQuiet _)))))

  pub perform_index_rebuild-IsQuiet : IsQuiet (perform_index_rebuild host)
  unfolding perform_index_rebuild
  perform_index_rebuild-IsQuiet = bind-IsQuiet (call-IsQuiet _) (λ es.
      bind-IsQuiet (call-IsQuiet _)
        (λ artifacts. bind-IsQuiet (call-IsQuiet _) (λ u. pure-IsQuiet _)))

  pub commit_reindex-IsQuiet : IsQuiet (commit_reindex host)
  unfolding commit_reindex
  commit_reindex-IsQuiet = bind-IsQuiet perform_index_rebuild-IsQuiet (λ n. pure-IsQuiet _)
