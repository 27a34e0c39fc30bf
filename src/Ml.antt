-- ===== src/Ml.antt =====
-- The model pipeline (services/ml-pipeline): the registry of models, how traffic is shared out
-- between two of them, the collection of training data, the retraining and the inference server.
pub mod Registry
pub mod Splitter
pub mod Deployment
pub mod Collector
pub mod Retraining
pub mod Server
