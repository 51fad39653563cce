-- ===== src/Examples/Chosen.antt =====
-- The registries and the publication on one event.
use nodus_hitl_hub.Bridge.Content.{IsFaithful, inbox_body-IsFaithful}
use nodus_hitl_hub.Examples.Data.{mail_event, mail_payload, strict_host}
use nodus_hitl_hub.Validators.Requirements.{HasRequirements, validation-HasRequirements}

validation-HasRequirements_example : HasRequirements mail_payload
validation-HasRequirements_example = validation-HasRequirements mail_payload

inbox_body-IsFaithful_example : IsFaithful strict_host mail_event
inbox_body-IsFaithful_example = inbox_body-IsFaithful strict_host mail_event
